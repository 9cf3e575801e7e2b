-- ===== src/Commands/Kept.antt =====
-- What the commands keep, by the laws of Server.Kept.
pub mod Moves
pub mod Rights
pub mod Exec
use owop_server_for_heroku_g.Base.{
  ℕ, ◌≡◌, refl, ◌≤◌, Bool, true, false, Option, none, some, List, [], ◌∷◌, either, maybe,
  if◌then◌else◌, Option-cases, inl, inr, Bool-cases, subst, ◌==◌,
}
use owop_server_for_heroku_g.Base.Words.{Bytes}
use owop_server_for_heroku_g.Base.Eq.{nat_eq, bytes_eq}
use owop_server_for_heroku_g.Base.Assoc.{lookup}
use owop_server_for_heroku_g.Args.Numbers.{read_u32}
use owop_server_for_heroku_g.World.{World}
use owop_server_for_heroku_g.Client.{Client}
use owop_server_for_heroku_g.Server.{Server, SocketInfo, send}
use owop_server_for_heroku_g.Server.Kept.{Kept}
use owop_server_for_heroku_g.Server.Find.{Found, client_at, first_client, get_cli}
use owop_server_for_heroku_g.Commands.Caller.{Caller, caller_at, tell_to, with_target}
use owop_server_for_heroku_g.Commands.Addresses.{tell_all}

module _ {F : Type 0} (P : Server F → Type 0) (A : Client F → Type 0) (D : ℕ → Type 0)
    (k : Kept P A D) where
  -- What is known of a caller and of a target.
  pub record Known (c : Caller F) : Type 0 where
    pub client : A c.cl
    pub default : D c.w.default_rank

  pub tell_to-Kept : (ws : ℕ) (msg : Bytes) (srv : Server F) → P srv → P (tell_to ws msg srv)
  tell_to-Kept ws msg srv p = k.rest srv _ refl refl refl refl p

  pub tell_all-Kept :
      (ws : ℕ) (msgs : List Bytes) (srv : Server F) → P srv → P (tell_all ws msgs srv)
  unfolding tell_all
  tell_all-Kept ws [] srv p = p
  tell_all-Kept ws (msg ∷ msgs) srv p = tell_all-Kept ws msgs _ (tell_to-Kept ws msg srv p)

  abbrev Holds : Option (Found F) → Type 0
  Holds none = Unit
  Holds (some t) = A t.cl

  client_at-Holds : (ws : ℕ) (srv : Server F) → P srv → Holds (client_at ws srv.socks)
  unfolding client_at
  client_at-Holds ws srv p = maybe Holds (lookup ws srv.socks) _ _ tt (λ si there.
      maybe Holds si.player _ _ tt (λ cl plays. k.client_of ws si cl srv p there plays))

  first_client-Holds :
      (test : Client F → Bool) (clients : List ℕ) (srv : Server F)
      → P srv
      → Holds (first_client test clients srv.socks)
  unfolding first_client
  first_client-Holds test [] srv p = tt
  first_client-Holds test (ws ∷ clients) srv p =
      let rest = first_client-Holds test clients srv p in
      maybe Holds (client_at ws srv.socks) _ _ rest
        (λ t e. either Holds (test t.cl) (some t) _ (subst Holds e (client_at-Holds ws srv p)) rest)

  abbrev HoldsCaller : Option (Caller F) → Type 0
  HoldsCaller none = Unit
  HoldsCaller (some c) = Known c

  caller_at-HoldsCaller : (ws : ℕ) (srv : Server F) → P srv → HoldsCaller (caller_at ws srv)
  unfolding caller_at
  caller_at-HoldsCaller ws srv p = maybe HoldsCaller (client_at ws srv.socks) _ _ tt (λ t e.
      maybe HoldsCaller (lookup t.cl.wrld srv.worlds) _ _ tt (λ w found. record {
        client = subst Holds e (client_at-Holds ws srv p);
        default = k.default_of t.cl.wrld w srv p found;
      }))

  pub caller_at-Known :
      (ws : ℕ) (srv : Server F) (c : Caller F) → P srv → caller_at ws srv ≡ some c → Known c
  caller_at-Known ws srv c p h = subst HoldsCaller h (caller_at-HoldsCaller ws srv p)

  pub with_target-Kept :
      (c : Caller F) (arg : Bytes) (srv missing : Server F) (act : ℕ → Found F → Server F)
      → P srv
      → P missing
      → ((n : ℕ) (t : Found F) → A t.cl → P (act n t))
      → P (with_target c arg srv missing act)
  unfolding with_target get_cli
  with_target-Kept c arg srv missing act p q h = maybe P (read_u32 arg) _ _ p (λ id e.
      maybe P (get_cli id c.w srv) _ _ q (λ t found.
        h id t (subst Holds found (first_client-Holds (λ cl. id == cl.id) c.w.clients srv p))))
