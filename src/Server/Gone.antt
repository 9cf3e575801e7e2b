-- ===== src/Server/Gone.antt =====
-- What is left of a socket that is closed.
use owop_server_for_heroku_g.Base.{
  ℕ, ◌≡◌, refl, ap, sym, ◌∙◌, Bool, true, false, not, either, maybe, none, some, [], ◌∷◌, ◌==◌,
  if◌then◌else◌, arith, Bool-cases, Option-cases, inl, inr,
}
use owop_server_for_heroku_g.Base.Words.{Bytes}
use owop_server_for_heroku_g.Base.Eq.{nat_eq, bytes_eq, eq_bytes, eq_bytes_iff}
use owop_server_for_heroku_g.Base.Assoc.{
  lookup, erase, erase-assign, erase-missing, lookup-erase, lookup-assign,
}
use owop_server_for_heroku_g.Net.{closed}
use owop_server_for_heroku_g.World.{World}
use owop_server_for_heroku_g.World.Cache.{sched_updates}
use owop_server_for_heroku_g.World.Clients.{rm_cli}
use owop_server_for_heroku_g.World.Updates.{is_empty}
use owop_server_for_heroku_g.Client.{Client}
use owop_server_for_heroku_g.Server.{
  Server, SocketInfo, send, set_lockdown, lockdown_check, admintell,
}
use owop_server_for_heroku_g.Server.Close.{
  leave, close_world, uncount, leave_world, is_lock_holder, on_disconnection, close, kick,
}

pub same_beq : (ws : ℕ) → (ws == ws) ≡ true
same_beq ws = ground arith

same_bytes : (s : Bytes) → eq_bytes s s ≡ true
same_bytes s = (eq_bytes_iff s s).1 refl

pub name-rm_cli : (ws id : ℕ) (w : World) → (rm_cli ws id w).name ≡ w.name
unfolding rm_cli sched_updates
name-rm_cli ws id w = ground arith

module _ {F : Type 0} where
  socks-lockdown_check : (srv : Server F) → (lockdown_check srv).socks ≡ srv.socks
  unfolding lockdown_check set_lockdown admintell
  socks-lockdown_check srv = ground arith

  worlds-lockdown_check : (srv : Server F) → (lockdown_check srv).worlds ≡ srv.worlds
  unfolding lockdown_check set_lockdown admintell
  worlds-lockdown_check srv = ground arith

  pub worlds-uncount : (ip : Bytes) (srv : Server F) → (uncount ip srv).worlds ≡ srv.worlds
  unfolding uncount
  worlds-uncount ip srv = elim (Option-cases (lookup ip srv.conns)) [
    | inl none_left ↦ rw (none_left, uncount) refl
    | inr (n, there) ↦ rw (there, uncount) refl
  ]

  socks-released :
      (b : Bool) (srv : Server F) → (if b then lockdown_check srv else srv).socks ≡ srv.socks
  socks-released true srv = socks-lockdown_check srv
  socks-released false srv = refl

  pub worlds-released :
      (b : Bool) (srv : Server F) → (if b then lockdown_check srv else srv).worlds ≡ srv.worlds
  worlds-released true srv = worlds-lockdown_check srv
  worlds-released false srv = refl

  socks-uncount : (ip : Bytes) (srv : Server F) → (uncount ip srv).socks ≡ srv.socks
  unfolding uncount
  socks-uncount ip srv =
      maybe (λ (s : Server F). s.socks ≡ srv.socks) (lookup ip srv.conns) _ _ refl (λ n e. refl)

  pub erase-leave :
      (ws : ℕ) (si : SocketInfo F) (cl : Client F) (srv : Server F)
      → erase ws (leave ws si cl srv).socks ≡ erase ws srv.socks
  unfolding leave
  erase-leave ws si cl srv =
      let Same : Server F → Type 0 = λ s. erase ws s.socks ≡ erase ws srv.socks in
      either Same (not cl.handledelete) _ _ refl (
        maybe Same (lookup cl.wrld srv.worlds) _ _ (erase-assign ws _ srv.socks)
          (λ w e. erase-assign ws _ srv.socks))

  socks-close_world : (name : Bytes) (srv : Server F) → (close_world name srv).socks ≡ srv.socks
  unfolding close_world
  socks-close_world name srv =
      let Same : Server F → Type 0 = λ s. s.socks ≡ srv.socks in
      maybe Same (lookup name srv.worlds) _ _ refl
        (λ w e. either Same (is_empty w.clients) _ _ refl refl)

  erase-leave_world :
      (ws : ℕ) (si : SocketInfo F) (srv : Server F)
      → erase ws (leave_world ws si srv).socks ≡ erase ws srv.socks
  unfolding leave_world
  erase-leave_world ws si srv =
      maybe (λ (s : Server F). erase ws s.socks ≡ erase ws srv.socks) si.player _ _ refl
        (λ cl e.
          ap (erase ws) (socks-close_world cl.wrld (leave ws si cl srv)) ∙ erase-leave ws si cl srv)

  pub socks-on_disconnection :
      (ws : ℕ) (srv : Server F) → (on_disconnection ws srv).socks ≡ erase ws srv.socks
  unfolding on_disconnection
  socks-on_disconnection ws srv = elim (Option-cases (lookup ws srv.socks)) [
    | inl missing ↦ rw (missing, on_disconnection) (sym (erase-missing ws srv.socks missing))
    | inr (si, there) ↦
        let counted = uncount si.ip (leave_world ws si srv) in
        let gone = record counted { socks = erase ws counted.socks } in
        rw (there, on_disconnection)
          (socks-released (is_lock_holder si srv) gone
            ∙ ap (erase ws) (socks-uncount si.ip (leave_world ws si srv))
            ∙ erase-leave_world ws si srv)
  ]

  -- Closing a socket takes it from the server and leaves the others as they are.
  pub socks-close : (ws : ℕ) (srv : Server F) → (close ws srv).socks ≡ erase ws srv.socks
  unfolding close
  socks-close ws srv = socks-on_disconnection ws (send (closed ws ∷ []) srv)

  -- So does `safedelete(true)` of a client that has not left before.
  pub socks-kick :
      (ws : ℕ) (si : SocketInfo F) (cl : Client F) (srv : Server F)
      → lookup ws srv.socks ≡ some si
      → si.player ≡ some cl
      → cl.handledelete ≡ true
      → (kick ws srv).socks ≡ erase ws srv.socks
  unfolding kick
  socks-kick ws si cl srv there plays live =
      let kicked : kick ws srv ≡ close ws (leave ws si cl srv) =
        rw (there, kick)
          (ap
              (λ o. elim o as (λ x. Server F) [
                | none ↦ srv
                | some c ↦ if c.handledelete then close ws (leave ws si c srv) else srv
              ])
              plays
            ∙ rw live refl) in
      ap (λ s. s.socks) kicked ∙ socks-close ws (leave ws si cl srv) ∙ erase-leave ws si cl srv

  -- A socket that is closed is gone from the server, whatever its client was and did.
  pub lookup-close : (ws : ℕ) (srv : Server F) → lookup ws (close ws srv).socks ≡ none
  lookup-close ws srv =
      ap (lookup ws) (socks-close ws srv) ∙ lookup-erase ws ws srv.socks ∙ rw (same_beq ws) refl

  lookup-close_world :
      (name : Bytes) (srv : Server F) (w : World)
      → lookup name srv.worlds ≡ some w
      → lookup name (close_world name srv).worlds ≡ (if is_empty w.clients then none else some w)
  unfolding close_world
  lookup-close_world name srv w h = elim (Bool-cases (is_empty w.clients)) [
    | inl empty ↦
        rw (h, empty, close_world) (lookup-erase name name srv.worlds ∙ rw (same_bytes name) refl)
    | inr used ↦ rw (h, used, close_world) h
  ]

  pub lookup-leave :
      (ws : ℕ) (si : SocketInfo F) (cl : Client F) (srv : Server F) (w : World)
      → cl.handledelete ≡ true
      → lookup cl.wrld srv.worlds ≡ some w
      → w.name ≡ cl.wrld
      → lookup cl.wrld (leave ws si cl srv).worlds ≡ some (rm_cli ws cl.id w)
  unfolding leave rm_cli lookup
  lookup-leave ws si cl srv w live h named =
      let name = name-rm_cli ws cl.id w ∙ named in
      rw (live, h, leave)
        (rw name (
          lookup-assign cl.wrld cl.wrld (rm_cli ws cl.id w) w srv.worlds h
          ∙ rw (same_bytes cl.wrld) refl))

  -- When the socket of a client is closed, its world loses the client; a world that nobody is left in
  -- is no longer found, any other stays with what `rm_cli` makes of it. The client has not left before,
  -- and the world that it names is found under its own name.
  pub worlds-close :
      (ws : ℕ) (si : SocketInfo F) (cl : Client F) (srv : Server F) (w : World)
      → lookup ws srv.socks ≡ some si
      → si.player ≡ some cl
      → cl.handledelete ≡ true
      → lookup cl.wrld srv.worlds ≡ some w
      → w.name ≡ cl.wrld
      → lookup cl.wrld (close ws srv).worlds
        ≡ (if is_empty (rm_cli ws cl.id w).clients then none else some (rm_cli ws cl.id w))
  unfolding close on_disconnection leave_world leave
  worlds-close ws si cl srv w there plays live found named =
      let told = send (closed ws ∷ []) srv in
      let counted = uncount si.ip (leave_world ws si told) in
      let gone = record counted { socks = erase ws counted.socks } in
      let left : leave_world ws si told ≡ close_world cl.wrld (leave ws si cl told) =
        rw (plays, leave_world) refl in
      let worlds : (close ws srv).worlds ≡ (close_world cl.wrld (leave ws si cl told)).worlds =
        rw (there, close, on_disconnection)
          (worlds-released (is_lock_holder si told) gone
            ∙ worlds-uncount si.ip (leave_world ws si told)
            ∙ ap (λ s. s.worlds) left) in
      ap (lookup cl.wrld) worlds
      ∙ lookup-close_world cl.wrld (leave ws si cl told) (rm_cli ws cl.id w)
          (lookup-leave ws si cl told w live found named)
