-- ===== src/Server/Find.antt =====
-- `World::get_cli` of world.cpp: a client of a world by its number or by its nick. A world knows the
-- sockets of its clients, the server what belongs to them.
use owop_server_for_heroku_g.Base.{ℕ, none, some, Option, List, [], ◌∷◌, ◌==◌, if◌then◌else◌, Bool}
use owop_server_for_heroku_g.Base.Words.{Bytes}
use owop_server_for_heroku_g.Base.Eq.{nat_eq, eq_bytes}
use owop_server_for_heroku_g.Base.Assoc.{lookup}
use owop_server_for_heroku_g.World.{World}
use owop_server_for_heroku_g.Client.{Client, get_nick}
use owop_server_for_heroku_g.Server.{Server, SocketInfo}

-- What a pointer to a client stands for.
pub record Found (F : Type 0) : Type 0 where
  pub ws : ℕ
  pub si : SocketInfo F
  pub cl : Client F

module _ {F : Type 0} where
  unfoldable pub client_at : ℕ → List (ℕ × SocketInfo F) → Option (Found F)
  client_at ws socks = elim (lookup ws socks) [
    | none ↦ none
    | some si ↦ elim si.player [
      | none ↦ none
      | some cl ↦ some (record { ws = ws; si = si; cl = cl })
    ]
  ]

  -- The loop over the clients of a world: the first one that the test holds for.
  unfoldable pub first_client :
      (Client F → Bool) → List ℕ → List (ℕ × SocketInfo F) → Option (Found F)
  first_client test [] socks = none
  first_client test (ws ∷ clients) socks =
      let rest = first_client test clients socks in
      elim (client_at ws socks) [
        | none ↦ rest
        | some found ↦ if test found.cl then some found else rest
      ]

  unfoldable pub get_cli : ℕ → World → Server F → Option (Found F)
  get_cli id w srv = first_client (λ cl. id == cl.id) w.clients srv.socks

  unfoldable pub get_cli_named : Bytes → World → Server F → Option (Found F)
  get_cli_named name w srv = first_client (λ cl. eq_bytes name (get_nick cl)) w.clients srv.socks
