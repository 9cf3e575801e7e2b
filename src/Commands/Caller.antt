-- ===== src/Commands/Caller.antt =====
-- What every command is given, and how it reaches the clients of the caller's world.
use owop_server_for_heroku_g.Base.{ℕ, none, some, Option, [], ◌∷◌}
use owop_server_for_heroku_g.Base.Words.{Bytes}
use owop_server_for_heroku_g.Base.Eq.{nat_eq, bytes_eq}
use owop_server_for_heroku_g.Base.Assoc.{lookup}
use owop_server_for_heroku_g.Args.Numbers.{read_u32}
use owop_server_for_heroku_g.Net.{text}
use owop_server_for_heroku_g.World.{World}
use owop_server_for_heroku_g.Client.{Client}
use owop_server_for_heroku_g.Server.{Server, SocketInfo, send}
use owop_server_for_heroku_g.Server.Find.{Found, client_at, get_cli}

-- The client that runs the command, with its socket and its world, as they are when the command begins.
pub record Caller (F : Type 0) : Type 0 where
  pub ws : ℕ
  pub si : SocketInfo F
  pub cl : Client F
  pub w : World

module _ {F : Type 0} where
  unfoldable pub caller_at : ℕ → Server F → Option (Caller F)
  caller_at ws srv = elim (client_at ws srv.socks) [
    | none ↦ none
    | some found ↦ elim (lookup found.cl.wrld srv.worlds) [
      | none ↦ none
      | some w ↦ some (record { ws = ws; si = found.si; cl = found.cl; w = w })
    ]
  ]

  -- cl->tell(msg)
  abbrev pub tell_to : ℕ → Bytes → Server F → Server F
  tell_to ws msg srv = send (text ws msg ∷ []) srv

  -- The client with the number that an argument spells: nothing is done where it is no number, and
  -- `missing` where nobody in the world has it.
  unfoldable pub with_target :
      Caller F → Bytes → Server F → Server F → (ℕ → Found F → Server F) → Server F
  with_target c arg srv missing act = elim (read_u32 arg) [
    | none ↦ srv
    | some id ↦ elim (get_cli id c.w srv) [ none ↦ missing | some t ↦ act id t ]
  ]
