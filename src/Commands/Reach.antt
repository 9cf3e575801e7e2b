-- ===== src/Commands/Reach.antt =====
-- Whom a command reaches: what the connections of others are after it.
pub mod Users
pub mod Ranked
use owop_server_for_heroku_g.Base.{
  ℕ, ◌≡◌, refl, sym, ap, subst, ◌∙◌, Bool, true, false, not, Option, none, some, List, [], ◌∷◌,
  ◌++◌, ◌==◌, either, maybe, if◌then◌else◌,
}
use owop_server_for_heroku_g.Base.Words.{Bytes}
use owop_server_for_heroku_g.Base.Eq.{nat_eq, bytes_eq}
use owop_server_for_heroku_g.Base.Assoc.{lookup, lookup-assign_ne, lookup-erase_ne}
use owop_server_for_heroku_g.Net.{Out}
use owop_server_for_heroku_g.World.{World}
use owop_server_for_heroku_g.Client.{Client, teleport}
use owop_server_for_heroku_g.Server.{Server, SocketInfo, put_player, admintell}
use owop_server_for_heroku_g.Server.Close.{leave, close, kick}
use owop_server_for_heroku_g.Server.Gone.{socks-close, erase-leave}
use owop_server_for_heroku_g.Commands.Moves.{send_to}

module _ {F : Type 0} (other : ℕ) (srv : Server F) where
  -- The other socket is as it was.
  abbrev pub Untouched : Server F → Type 0
  Untouched s = lookup other s.socks ≡ lookup other srv.socks

  pub put_player-Untouched :
      (ws : ℕ) (si : SocketInfo F) (cl : Client F) (s : Server F)
      → (ws == other) ≡ false
      → Untouched s
      → Untouched (put_player ws si cl s)
  put_player-Untouched ws si cl s ne u = lookup-assign_ne ws other _ s.socks ne ∙ u

  pub kick-Untouched :
      (ws : ℕ) (s : Server F) → (ws == other) ≡ false → Untouched s → Untouched (kick ws s)
  unfolding kick
  kick-Untouched ws s ne u = maybe Untouched (lookup ws s.socks) _ _ u (λ si there.
      maybe Untouched si.player _ _ u (λ cl plays.
        either Untouched cl.handledelete _ _
          (ap (lookup other) (socks-close ws (leave ws si cl s) ∙ erase-leave ws si cl s)
            ∙ lookup-erase_ne ws other s.socks ne
            ∙ u)
          u))

  pub send_to-Untouched :
      (ws : ℕ) (si : SocketInfo F) (cl : Client F) (x y : ℕ) (s : Server F)
      → (ws == other) ≡ false
      → Untouched s
      → Untouched (send_to ws si cl x y s)
  unfolding send_to
  send_to-Untouched ws si cl x y s ne u =
      maybe Untouched (lookup cl.wrld s.worlds) _ _ u
        (λ w found. put_player-Untouched ws si (teleport cl x y w).0 s ne u)
