-- ===== src/Server/Stop/Leaving.antt =====
-- The worlds of a server when the sockets of all clients of one of them are closed.
use owop_server_for_heroku_g.Base.{
  ℕ, ◌≡◌, refl, ap, sym, ◌∙◌, Bool, true, false, some, List, [], ◌∷◌, map, if◌then◌else◌, All, ◌==◌,
  either, subst,
}
use owop_server_for_heroku_g.Base.Words.{Bytes}
use owop_server_for_heroku_g.Base.Eq.{nat_eq, bytes_eq}
use owop_server_for_heroku_g.Base.Assoc.{lookup, erase, remove, erase-assign}
use owop_server_for_heroku_g.Net.{Out, closed}
use owop_server_for_heroku_g.World.{World}
use owop_server_for_heroku_g.World.Cache.{sched_updates}
use owop_server_for_heroku_g.World.Clients.{rm_cli}
use owop_server_for_heroku_g.World.Updates.{is_empty}
use owop_server_for_heroku_g.Client.{Client}
use owop_server_for_heroku_g.Server.{Server, SocketInfo, send}
use owop_server_for_heroku_g.Server.Close.{
  close, leave, leave_world, close_world, uncount, is_lock_holder, on_disconnection,
}
use owop_server_for_heroku_g.Server.Gone.{
  worlds-uncount, worlds-released, lookup-leave, name-rm_cli, socks-close, same_beq,
}
use owop_server_for_heroku_g.Server.Kick.{each}

module _ {F : Type 0} where
  worlds-leave :
      (ws : ℕ) (si : SocketInfo F) (cl : Client F) (srv : Server F) (w : World)
      → cl.handledelete ≡ true
      → lookup cl.wrld srv.worlds ≡ some w
      → w.name ≡ cl.wrld
      → erase cl.wrld (leave ws si cl srv).worlds ≡ erase cl.wrld srv.worlds
  unfolding leave rm_cli
  worlds-leave ws si cl srv w live found named =
      rw (live, found, leave)
        (rw (name-rm_cli ws cl.id w ∙ named) (erase-assign cl.wrld (rm_cli ws cl.id w) srv.worlds))

  worlds-leave_told :
      (ws : ℕ) (si : SocketInfo F) (cl : Client F) (outs : List Out) (srv : Server F) (w : World)
      → cl.handledelete ≡ true
      → lookup cl.wrld srv.worlds ≡ some w
      → (leave ws si cl (send outs srv)).worlds ≡ (leave ws si cl srv).worlds
  unfolding leave
  worlds-leave_told ws si cl outs srv w live found = rw (live, found, leave) refl

  worlds-close_world :
      (b : Bool) (name : Bytes) (srv : Server F) (w : World)
      → lookup name srv.worlds ≡ some w
      → is_empty w.clients ≡ b
      → (close_world name srv).worlds ≡ (if b then erase name srv.worlds else srv.worlds)
  unfolding close_world
  worlds-close_world true name srv w found last = rw (found, last, close_world) refl
  worlds-close_world false name srv w found last = rw (found, last, close_world) refl

  -- Without its last client a world goes from the worlds of the server.
  worlds-close_any :
      (b : Bool) (ws : ℕ) (si : SocketInfo F) (cl : Client F) (srv : Server F) (w : World)
      → lookup ws srv.socks ≡ some si
      → si.player ≡ some cl
      → cl.handledelete ≡ true
      → lookup cl.wrld srv.worlds ≡ some w
      → w.name ≡ cl.wrld
      → is_empty (rm_cli ws cl.id w).clients ≡ b
      → (close ws srv).worlds
        ≡ (if b then erase cl.wrld (leave ws si cl srv).worlds else (leave ws si cl srv).worlds)
  unfolding close on_disconnection leave_world leave
  worlds-close_any b ws si cl srv w there plays live found named last =
      let told = send (closed ws ∷ []) srv in
      let counted = uncount si.ip (leave_world ws si told) in
      let gone = record counted { socks = erase ws counted.socks } in
      let left : leave_world ws si told ≡ close_world cl.wrld (leave ws si cl told) =
        rw (plays, leave_world) refl in
      rw (there, close, on_disconnection)
        (worlds-released (is_lock_holder si told) gone
          ∙ worlds-uncount si.ip (leave_world ws si told)
          ∙ ap (λ s. s.worlds) left
          ∙ worlds-close_world b cl.wrld (leave ws si cl told) (rm_cli ws cl.id w)
              (lookup-leave ws si cl told w live found named) last
          ∙ ap (λ m. if b then erase cl.wrld m else m)
              (worlds-leave_told ws si cl (closed ws ∷ []) srv w live found))

  -- A socket of a client that plays in the world of this name.
  pub record PlaysIn (name : Bytes) (si : SocketInfo F) : Type 0 where
    pub cl : Client F
    pub plays : si.player ≡ some cl
    pub live : cl.handledelete ≡ true
    pub inside : cl.wrld ≡ name

  -- Sockets, each of them once.
  unfoldable pub Distinct : List (ℕ × SocketInfo F) → Type 0
  Distinct [] = Unit
  Distinct ((ws, si) ∷ m) = All (λ other. (other.0 == ws) ≡ false) m × Distinct m

  erase-absent :
      (ws : ℕ) (m : List (ℕ × SocketInfo F))
      → All (λ other. (other.0 == ws) ≡ false) m
      → erase ws m ≡ m
  unfolding erase
  erase-absent ws [] h = refl
  erase-absent ws ((k, si) ∷ m) (hk, h) =
      rw (hk, erase) (ap (λ rest. (k, si) ∷ rest) (erase-absent ws m h))

  remove-absent :
      (ws : ℕ) (m : List (ℕ × SocketInfo F))
      → All (λ other. (other.0 == ws) ≡ false) m
      → remove ws (map (λ e. e.0) m) ≡ map (λ e. e.0) m
  unfolding remove
  remove-absent ws [] h = refl
  remove-absent ws ((k, si) ∷ m) (hk, h) =
      rw (hk, remove) (ap (λ rest. k ∷ rest) (remove-absent ws m h))

  clients-rm_cli :
      (ws id : ℕ) (si : SocketInfo F) (m : List (ℕ × SocketInfo F)) (w : World)
      → w.clients ≡ map (λ e. e.0) ((ws, si) ∷ m)
      → All (λ other. (other.0 == ws) ≡ false) m
      → (rm_cli ws id w).clients ≡ map (λ e. e.0) m
  unfolding remove rm_cli sched_updates
  clients-rm_cli ws id si m w here absent =
      let left : remove ws w.clients ≡ map (λ e. e.0) m =
        ap (remove ws) here ∙ rw (same_beq ws, remove) (remove-absent ws m absent) in
      either (λ (w' : World). w'.clients ≡ map (λ e. e.0) m) (is_empty (remove ws w.clients)) _ _
        left left

  socks-close_head :
      (ws : ℕ) (si : SocketInfo F) (m : List (ℕ × SocketInfo F)) (s : Server F)
      → s.socks ≡ (ws, si) ∷ m
      → All (λ other. (other.0 == ws) ≡ false) m
      → (close ws s).socks ≡ m
  unfolding erase
  socks-close_head ws si m s here absent =
      socks-close ws s ∙ ap (erase ws) here ∙ rw (same_beq ws, erase) (erase-absent ws m absent)

  lookup_head :
      (ws : ℕ) (si : SocketInfo F) (m : List (ℕ × SocketInfo F)) (s : Server F)
      → s.socks ≡ (ws, si) ∷ m
      → lookup ws s.socks ≡ some si
  unfolding lookup
  lookup_head ws si m s here = ap (lookup ws) here ∙ rw (same_beq ws, lookup) refl

  -- A client of the world leaves it, with the last one the world goes.
  worlds-close_head :
      (b : Bool) (ws : ℕ) (si : SocketInfo F) (m : List (ℕ × SocketInfo F)) (name : Bytes)
      (w : World) (s : Server F) (p : PlaysIn name si)
      → s.socks ≡ (ws, si) ∷ m
      → lookup name s.worlds ≡ some w
      → w.name ≡ name
      → is_empty (rm_cli ws p.cl.id w).clients ≡ b
      → (close ws s).worlds
        ≡ (if b then erase name (leave ws si p.cl s).worlds else (leave ws si p.cl s).worlds)
  worlds-close_head b ws si m name w s p here found named last =
      worlds-close_any b ws si p.cl s w (lookup_head ws si m s here) p.plays p.live
        (ap (λ i. lookup i s.worlds) p.inside ∙ found) (named ∙ sym p.inside) last
      ∙ ap (λ i. if b then erase i (leave ws si p.cl s).worlds else (leave ws si p.cl s).worlds)
          p.inside

  worlds-leave_head :
      (ws : ℕ) (si : SocketInfo F) (name : Bytes) (w : World) (s : Server F) (p : PlaysIn name si)
      → lookup name s.worlds ≡ some w
      → w.name ≡ name
      → erase name (leave ws si p.cl s).worlds ≡ erase name s.worlds
  worlds-leave_head ws si name w s p found named =
      subst (λ i. erase i (leave ws si p.cl s).worlds ≡ erase i s.worlds) p.inside
        (worlds-leave ws si p.cl s w p.live (ap (λ i. lookup i s.worlds) p.inside ∙ found)
          (named ∙ sym p.inside))

  lookup-leave_head :
      (ws : ℕ) (si : SocketInfo F) (name : Bytes) (w : World) (s : Server F) (p : PlaysIn name si)
      → lookup name s.worlds ≡ some w
      → w.name ≡ name
      → lookup name (leave ws si p.cl s).worlds ≡ some (rm_cli ws p.cl.id w)
  lookup-leave_head ws si name w s p found named =
      subst (λ i. lookup i (leave ws si p.cl s).worlds ≡ some (rm_cli ws p.cl.id w)) p.inside
        (lookup-leave ws si p.cl s w p.live (ap (λ i. lookup i s.worlds) p.inside ∙ found)
          (named ∙ sym p.inside))

  each_head :
      (ws : ℕ) (si : SocketInfo F) (m : List (ℕ × SocketInfo F)) (s : Server F)
      → s.socks ≡ (ws, si) ∷ m
      → each (λ k seen. close k) ((ws, si) ∷ m) s ≡ each (λ k seen. close k) m (close ws s)
  unfolding each
  each_head ws si m s here = rw (lookup_head ws si m s here, each) refl

  -- When the sockets of all clients of a world are closed, it goes from the worlds of the server.
  pub worlds-each :
      (ws : ℕ) (si : SocketInfo F) (m : List (ℕ × SocketInfo F)) (name : Bytes) (w : World)
      (s : Server F)
      → s.socks ≡ (ws, si) ∷ m
      → Distinct ((ws, si) ∷ m)
      → All (λ e. PlaysIn name e.1) ((ws, si) ∷ m)
      → w.clients ≡ map (λ e. e.0) ((ws, si) ∷ m)
      → w.name ≡ name
      → lookup name s.worlds ≡ some w
      → (each (λ k seen. close k) ((ws, si) ∷ m) s).worlds ≡ erase name s.worlds
  unfolding Distinct each
  worlds-each ws si [] name w s here (absent, d) (p, ps) clients named found =
      let last = ap is_empty (clients-rm_cli ws p.cl.id si [] w clients absent) in
      ap (λ s. s.worlds) (each_head ws si [] s here)
      ∙ worlds-close_head true ws si [] name w s p here found named last
      ∙ worlds-leave_head ws si name w s p found named
  worlds-each ws si ((ws2, si2) ∷ m) name w s here (absent, d) (p, ps) clients named found =
      let rest = (ws2, si2) ∷ m in
      let clients' = clients-rm_cli ws p.cl.id si rest w clients absent in
      let kept : (close ws s).worlds ≡ (leave ws si p.cl s).worlds =
        worlds-close_head false ws si rest name w s p here found named (ap is_empty clients') in
      ap (λ s. s.worlds) (each_head ws si rest s here)
      ∙ worlds-each ws2 si2 m name (rm_cli ws p.cl.id w) (close ws s)
          (socks-close_head ws si rest s here absent) d ps clients'
          (name-rm_cli ws p.cl.id w ∙ named)
          (ap (lookup name) kept ∙ lookup-leave_head ws si name w s p found named)
      ∙ ap (erase name) kept
      ∙ worlds-leave_head ws si name w s p found named
