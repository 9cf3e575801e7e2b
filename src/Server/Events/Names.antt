-- ===== src/Server/Events/Names.antt =====
-- Invariants over all sequences of events for which no password matters: the names of the worlds, and
-- that no client that is still there has left.
use owop_server_for_heroku_g.Base.{ℕ, ◌≡◌, ◌∙◌, ◌≤◌, true, List, [], ◌∷◌, All-each, length}
use owop_server_for_heroku_g.Base.Words.{Bytes}
use owop_server_for_heroku_g.Limiter.{Float}
use owop_server_for_heroku_g.Args.{split_args}
use owop_server_for_heroku_g.Database.Handles.{Os}
use owop_server_for_heroku_g.Client.{Client}
use owop_server_for_heroku_g.Server.{Server}
use owop_server_for_heroku_g.Server.Join.{join_world}
use owop_server_for_heroku_g.Server.Kept.{Kept}
use owop_server_for_heroku_g.Server.Kept.Messages.{command_of}
use owop_server_for_heroku_g.Server.Everyone.{Everyone, Everyone-kept}
use owop_server_for_heroku_g.Server.Names.{IsNamed, IsNamed-kept}
use owop_server_for_heroku_g.Server.Names.Messages.{join_world-IsNamed}
use owop_server_for_heroku_g.Server.Events.{Event, after, after_all}
use owop_server_for_heroku_g.Server.Events.Join.{join_world-Everyone}
use owop_server_for_heroku_g.Server.Events.Kept.{AllowedIn, after-Kept}

-- What the server's properties say of a rank, where they say nothing.
abbrev Any : ℕ → Type 0
Any n = Unit

module _ {F : Type 0} where
  abbrev IsHere : Client F → Type 0
  IsHere cl = cl.handledelete ≡ true

  -- No client that is still connected has left its world.
  abbrev pub IsLive : Server F → Type 0
  IsLive = Everyone IsHere Any

  IsLive-kept : Kept IsLive IsHere Any
  IsLive-kept =
      Everyone-kept IsHere Any (λ cl cl' same gone v. gone ∙ v) (λ cl cl' gone d v. gone ∙ v)
        (λ cl v. tt) (λ m n below d. tt) tt

module _ {F : Type 0} ⦃fl : Float F⦄ (os : Os) (junk : Bytes) where
  -- Where every rank is allowed, so is every event.
  Any-allowed :
      (P : Server F → Type 0) (A : Client F → Type 0) (k : Kept P A Any)
      (joined : (ws : ℕ) (name : Bytes) (srv : Server F)
        → length name ≤ 24
        → 1 ≤ length name
        → P srv
        → P (join_world ws name srv))
      (e : Event) (s : Server F)
      → AllowedIn P A Any k os junk joined e s
  Any-allowed P A k joined (Event.received ws oc msg now) s =
      All-each _ (λ w. (λ e. tt, λ e. tt)) (split_args (command_of msg))
  Any-allowed P A k joined (Event.connected ws address now) s = tt
  Any-allowed P A k joined (Event.disconnected ws) s = tt
  Any-allowed P A k joined (Event.world_timer name) s = tt
  Any-allowed P A k joined Event.save_timer s = tt
  Any-allowed P A k joined Event.round_over s = tt

  after_all-Kept :
      (P : Server F → Type 0) (A : Client F → Type 0) (k : Kept P A Any)
      (joined : (ws : ℕ) (name : Bytes) (srv : Server F)
        → length name ≤ 24
        → 1 ≤ length name
        → P srv
        → P (join_world ws name srv))
      (es : List Event) (s : Server F)
      → P s
      → P (after_all os junk es s)
  unfolding after_all
  after_all-Kept P A k joined [] s p = p
  after_all-Kept P A k joined (e ∷ es) s p =
      after_all-Kept P A k joined es (after os junk e s)
        (after-Kept P A Any k os junk joined e s (Any-allowed P A k joined e s) p)

  -- Whatever happens to a server, however long it runs, the names of its worlds stay valid: 1 to 24
  -- characters from a..z, 0..9, '_' and '.'.
  pub after_all-IsNamed :
      (es : List Event) (srv : Server F) → IsNamed srv → IsNamed (after_all os junk es srv)
  after_all-IsNamed es srv v =
      after_all-Kept IsNamed (λ cl. Unit {0}) IsNamed-kept
        (λ ws name s short filled u. join_world-IsNamed ws name s short filled u) es srv v

  -- Whatever happens to a server, however long it runs, no client that is still connected has left
  -- its world: between two events there is no client that `safedelete` would do nothing for.
  pub after_all-IsLive :
      (es : List Event) (srv : Server F) → IsLive srv → IsLive (after_all os junk es srv)
  after_all-IsLive es srv v =
      after_all-Kept IsLive IsHere IsLive-kept
        (λ ws name s short filled u.
          join_world-Everyone IsHere Any IsLive-kept (λ cl live d. live) ws name s u)
        es srv v
