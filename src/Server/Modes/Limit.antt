-- ===== src/Server/Modes/Limit.antt =====
-- One pass of the loop that enforces the limit of connections per address.
use owop_server_for_heroku_g.Base.{
  ◌<◌, ℕ, ◌≡◌, refl, subst, ◌≤◌, Bool, true, false, none, some, List, [], ◌∷◌, ltb, arith, examine,
  ◌∙◌, decide, ◌⊎◌, inl, inr, Option-cases,
}
use owop_server_for_heroku_g.Base.Words.{Bytes}
use owop_server_for_heroku_g.Base.Eq.{nat_eq, bytes_eq}
use owop_server_for_heroku_g.Base.Assoc.{lookup, erase, AllValues, Maybe, ListedIn}
use owop_server_for_heroku_g.Client.{Client, is_admin}
use owop_server_for_heroku_g.Server.{Server, SocketInfo, get_conns, is_admin_socket}
use owop_server_for_heroku_g.Server.Gone.{socks-close, socks-kick}
use owop_server_for_heroku_g.Server.Modes.{limit_pass}

module _ {F : Type 0} where
  -- A client that has not left; a socket without a client is as good.
  abbrev pub IsStaying : SocketInfo F → Type 0
  IsStaying si = Maybe (λ (cl : Client F). cl.handledelete ≡ true) si.player

  -- The socket of an administrator's client, or one whose address is within the limit.
  abbrev pub IsWithin : ℕ → Server F → SocketInfo F → Type 0
  IsWithin max srv si = get_conns si.ip srv ≤ max ⊎ (is_admin_socket si ≡ true)

  -- A pass that ends one connection, of an address above the limit and not an administrator's, and asks
  -- for another pass.
  pub record Cut (max : ℕ) (srv : Server F) (did : Server F × Bool) : Type 0 where
    pub more : did.1 ≡ true
    pub ws : ℕ
    pub si : SocketInfo F
    pub there : lookup ws srv.socks ≡ some si
    pub over : max < get_conns si.ip srv
    pub common : is_admin_socket si ≡ false
    pub cut : did.0.socks ≡ erase ws srv.socks

  -- What a pass does from a server: it finds no connection to end, or it ends one.
  unfoldable pub Pass : ℕ → List (ℕ × SocketInfo F) → Server F → Server F × Bool → Type 0
  Pass max m srv did = ((did ≡ (srv, false)) × AllValues (IsWithin max srv) m) ⊎ Cut max srv did

  admin-some :
      (si : SocketInfo F) (cl : Client F) → si.player ≡ some cl → is_admin_socket si ≡ is_admin cl
  unfolding is_admin_socket
  admin-some si cl plays = rw (plays, is_admin_socket) refl

  admin-none : (si : SocketInfo F) → si.player ≡ none → is_admin_socket si ≡ false
  unfolding is_admin_socket
  admin-none si none_yet = rw (none_yet, is_admin_socket) refl

  get_conns-lookup :
      (ip : Bytes) (n : ℕ) (srv : Server F) → lookup ip srv.conns ≡ some n → get_conns ip srv ≡ n
  unfolding get_conns
  get_conns-lookup ip n srv h = rw (h, get_conns) refl

  get_conns-none : (ip : Bytes) (srv : Server F) → lookup ip srv.conns ≡ none → get_conns ip srv ≡ 0
  unfolding get_conns
  get_conns-none ip srv h = rw (h, get_conns) refl

  skip :
      (max ws : ℕ) (si : SocketInfo F) (m : List (ℕ × SocketInfo F)) (srv : Server F)
      (did : Server F × Bool)
      → IsWithin max srv si
      → Pass max m srv did
      → Pass max ((ws, si) ∷ m) srv did
  unfolding Pass
  skip max ws si m srv did w (inl (e, ws')) = inl (e, (w, ws'))
  skip max ws si m srv did w (inr cut) = inr cut

  pub limit_pass-cases :
      (max : ℕ) (m : List (ℕ × SocketInfo F)) (srv : Server F)
      → ListedIn srv.socks m
      → AllValues IsStaying m
      → Pass max m srv (limit_pass max m false srv)
  unfolding limit_pass Pass
  limit_pass-cases max [] srv l v = inl (refl, tt)
  limit_pass-cases max ((ws, si) ∷ m) srv (there, l) (stays, v) =
      let rest = limit_pass-cases max m srv l v in
      let Q = Pass max ((ws, si) ∷ m) srv in
      elim (Option-cases (lookup si.ip srv.conns)) [
        | inl unknown ↦
            rw (unknown, limit_pass)
              (skip max ws si m srv _ (inl (omega (arith, get_conns-none si.ip srv unknown))) rest)
        | inr (n, known) ↦
            let conns = get_conns-lookup si.ip n srv known in
            rw (known, limit_pass)
              (decide Q (ltb max n) _ _
                (λ over.
                  let above : max < get_conns si.ip srv = ground (arith, conns) in
                  examine Q si.player _ _
                    (λ none_yet. inr (record {
                      more = refl;
                      ws = ws;
                      si = si;
                      there = there;
                      over = above;
                      common = admin-none si none_yet;
                      cut = socks-close ws srv;
                    }))
                    (λ cl plays.
                      decide Q (is_admin cl) _ _
                        (λ admin.
                          skip max ws si m srv _ (inr (admin-some si cl plays ∙ admin)) rest)
                        (λ common. inr (record {
                          more = refl;
                          ws = ws;
                          si = si;
                          there = there;
                          over = above;
                          common = admin-some si cl plays ∙ common;
                          cut = socks-kick ws si cl srv there plays (subst (Maybe _) plays stays);
                        }))))
                (λ under. skip max ws si m srv _ (inl (ground (arith, conns))) rest))
      ]
