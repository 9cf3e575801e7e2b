-- ===== src/Server/Stop/Gone.antt =====
-- How a server ends.
use owop_server_for_heroku_g.Base.{
  ℕ, ◌≡◌, refl, ap, sym, ◌∙◌, Bool, true, false, none, some, Option, List, [], ◌∷◌, ◌++◌, ◌==◌,
  examine, subst, if◌then◌else◌,
}
use owop_server_for_heroku_g.Base.Words.{Bytes}
use owop_server_for_heroku_g.Base.Eq.{nat_eq}
use owop_server_for_heroku_g.Base.Assoc.{lookup, erase, erase-missing, lookup-erase}
use owop_server_for_heroku_g.Limiter.{Float}
use owop_server_for_heroku_g.Database.Handles.{Os}
use owop_server_for_heroku_g.Server.{Server, SocketInfo}
use owop_server_for_heroku_g.Server.Close.{close}
use owop_server_for_heroku_g.Server.Events.{Event}
use owop_server_for_heroku_g.Server.Gone.{socks-close}
use owop_server_for_heroku_g.Server.Files.{writefiles}
use owop_server_for_heroku_g.Server.Kick.{each}
use owop_server_for_heroku_g.Server.Stop.{
  close_all, destroy, Life, Step, quit, timer_callback, event, step, live,
}

module _ {F : Type 0} where
  socks-close_next :
      (ws : ℕ) (s : Server F)
      → (elim (lookup ws s.socks) as (λ x. Server F) [ none ↦ s | some si ↦ close ws s ]).socks
        ≡ erase ws s.socks
  socks-close_next ws s =
      examine (λ (s' : Server F). s'.socks ≡ erase ws s.socks) (lookup ws s.socks) s
        (λ si. close ws s) (λ missing. sym (erase-missing ws s.socks missing))
        (λ si there. socks-close ws s)

  -- What is found after each socket of the list is closed.
  abbrev unless : Option (SocketInfo F) → Option (SocketInfo F) → Option (SocketInfo F)
  unless none here = here
  unless (some si) here = none

  unless_head :
      (b : Bool) (seen : SocketInfo F) (o here : Option (SocketInfo F))
      → unless o (if b then none else here) ≡ unless (if b then some seen else o) here
  unless_head true seen none here = refl
  unless_head true seen (some si) here = refl
  unless_head false seen o here = refl

  lookup-each :
      (m : List (ℕ × SocketInfo F)) (k : ℕ) (s : Server F)
      → lookup k (each (λ ws si. close ws) m s).socks ≡ unless (lookup k m) (lookup k s.socks)
  unfolding each lookup
  lookup-each [] k s = refl
  lookup-each ((ws, seen) ∷ m) k s =
      lookup-each m k _
      ∙ ap (λ socks. unless (lookup k m) (lookup k socks)) (socks-close_next ws s)
      ∙ ap (unless (lookup k m)) (lookup-erase ws k s.socks)
      ∙ unless_head (ws == k) seen (lookup k m) (lookup k s.socks)

  unless_same : (o : Option (SocketInfo F)) → unless o o ≡ none
  unless_same none = refl
  unless_same (some si) = refl

  lookup-destroy :
      (os : Os) (junk : Bytes) (k : ℕ) (srv : Server F)
      → lookup k (destroy os junk srv).socks ≡ none
  unfolding destroy close_all writefiles
  lookup-destroy os junk k srv = lookup-each srv.socks k srv ∙ unless_same (lookup k srv.socks)

  -- The program has left, and of its server no socket was left open.
  pub IsEnded : Life F → Type 0
  IsEnded (Life.running srv) = ⊥
  IsEnded (Life.stopping srv) = ⊥
  IsEnded (Life.stopped srv) = (k : ℕ) → lookup k srv.socks ≡ none

  -- The same, if the program has left.
  IsClean : Life F → Type 0
  IsClean (Life.running srv) = Unit
  IsClean (Life.stopping srv) = Unit
  IsClean (Life.stopped srv) = (k : ℕ) → lookup k srv.socks ≡ none

  -- The same, if the program has left, and it has been told to.
  IsQuitting : Life F → Type 0
  IsQuitting (Life.running srv) = ⊥
  IsQuitting (Life.stopping srv) = Unit
  IsQuitting (Life.stopped srv) = (k : ℕ) → lookup k srv.socks ≡ none

-- What ends a program that is stopping.
unfoldable pub Ends : Step → Type 0
Ends (Step.happens e) = ⊥
Ends Step.interrupted = Unit
Ends Step.timer_closed = Unit

module _ {F : Type 0} ⦃fl : Float F⦄ (os : Os) (junk : Bytes) where
  live-kept :
      (P : Life F → Type 0)
      → ((s : Step) (l : Life F) → P l → P (step os junk s l))
      → (ss : List Step) (l : Life F) → P l
      → P (live os junk ss l)
  unfolding live
  live-kept P kept [] l p = p
  live-kept P kept (s ∷ ss) l p = live-kept P kept ss (step os junk s l) (kept s l p)

  live-append :
      (ss later : List Step) (l : Life F)
      → live os junk (ss ++ later) l ≡ live os junk later (live os junk ss l)
  unfolding live
  live-append [] later l = refl
  live-append (s ∷ ss) later l = live-append ss later (step os junk s l)

  event_stopping : (e : Event) (srv : Server F) → IsQuitting (event os junk e (Life.stopping srv))
  unfolding event IsQuitting
  event_stopping (Event.connected ws address now) srv = tt
  event_stopping (Event.received ws oc msg now) srv = tt
  event_stopping (Event.disconnected ws) srv = tt
  event_stopping (Event.world_timer name) srv = tt
  event_stopping Event.save_timer srv = tt
  event_stopping Event.round_over srv = tt

  step-IsQuitting : (s : Step) (l : Life F) → IsQuitting l → IsQuitting (step os junk s l)
  unfolding step quit timer_callback event IsQuitting
  step-IsQuitting s (Life.running srv) q = elim q [ ]
  step-IsQuitting (Step.happens e) (Life.stopping srv) q = event_stopping e srv
  step-IsQuitting (Step.happens e) (Life.stopped srv) q = q
  step-IsQuitting Step.interrupted (Life.stopping srv) q = λ k. lookup-destroy os junk k srv
  step-IsQuitting Step.interrupted (Life.stopped srv) q = q
  step-IsQuitting Step.timer_closed (Life.stopping srv) q = λ k. lookup-destroy os junk k srv
  step-IsQuitting Step.timer_closed (Life.stopped srv) q = q

  IsClean-quitting : (l : Life F) → IsQuitting l → IsClean l
  unfolding IsClean IsQuitting
  IsClean-quitting (Life.running srv) q = elim q [ ]
  IsClean-quitting (Life.stopping srv) q = tt
  IsClean-quitting (Life.stopped srv) q = q

  step-IsClean : (s : Step) (l : Life F) → IsClean l → IsClean (step os junk s l)
  unfolding step quit timer_callback event IsClean IsQuitting
  step-IsClean (Step.happens e) (Life.running srv) c = tt
  step-IsClean Step.interrupted (Life.running srv) c = tt
  step-IsClean Step.timer_closed (Life.running srv) c = tt
  step-IsClean s (Life.stopping srv) c =
      IsClean-quitting (step os junk s (Life.stopping srv))
        (step-IsQuitting s (Life.stopping srv) tt)
  step-IsClean s (Life.stopped srv) c =
      IsClean-quitting (step os junk s (Life.stopped srv)) (step-IsQuitting s (Life.stopped srv) c)

  interrupted-IsQuitting : (l : Life F) → IsClean l → IsQuitting (step os junk Step.interrupted l)
  unfolding step quit IsClean IsQuitting
  interrupted-IsQuitting (Life.running srv) c = tt
  interrupted-IsQuitting (Life.stopping srv) c = λ k. lookup-destroy os junk k srv
  interrupted-IsQuitting (Life.stopped srv) c = c

  Ends-IsEnded : (s : Step) (l : Life F) → Ends s → IsQuitting l → IsEnded (step os junk s l)
  unfolding step quit timer_callback IsEnded IsQuitting Ends
  Ends-IsEnded (Step.happens e) l ends q = elim ends [ ]
  Ends-IsEnded s (Life.running srv) ends q = elim q [ ]
  Ends-IsEnded Step.interrupted (Life.stopping srv) ends q = λ k. lookup-destroy os junk k srv
  Ends-IsEnded Step.interrupted (Life.stopped srv) ends q = q
  Ends-IsEnded Step.timer_closed (Life.stopping srv) ends q = λ k. lookup-destroy os junk k srv
  Ends-IsEnded Step.timer_closed (Life.stopped srv) ends q = q

  step-IsEnded : (s : Step) (l : Life F) → IsEnded l → IsEnded (step os junk s l)
  unfolding step quit timer_callback event IsEnded
  step-IsEnded s (Life.running srv) h = elim h [ ]
  step-IsEnded s (Life.stopping srv) h = elim h [ ]
  step-IsEnded (Step.happens e) (Life.stopped srv) h = h
  step-IsEnded Step.interrupted (Life.stopped srv) h = h
  step-IsEnded Step.timer_closed (Life.stopped srv) h = h

  -- Whatever happens to a server: once it is interrupted, and then interrupted again or the timer that it
  -- closes is closed, the program has left, and none of the sockets of the server was left open.
  pub live-IsEnded :
      (before between later : List Step) (last : Step) (srv : Server F)
      → Ends last
      → IsEnded (
          live os junk
            (before ++ (Step.interrupted ∷ (between ++ (last ∷ later))))
            (Life.running srv))
  unfolding live IsClean
  live-IsEnded before between later last srv ends =
      let l1 = live os junk before (Life.running srv) in
      let clean = live-kept IsClean step-IsClean before (Life.running srv) tt in
      let l2 = step os junk Step.interrupted l1 in
      let l3 = live os junk between l2 in
      let quitting : IsQuitting l3 =
        live-kept IsQuitting step-IsQuitting between l2 (interrupted-IsQuitting l1 clean) in
      subst IsEnded
        (sym (live-append before _ (Life.running srv) ∙ live-append between (last ∷ later) l2))
        (live-kept IsEnded step-IsEnded later (step os junk last l3)
          (Ends-IsEnded last l3 ends quitting))
