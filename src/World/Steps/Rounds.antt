-- ===== src/World/Steps/Rounds.antt =====
-- The rounds of the timer of world.cpp, which calls World::send_updates: one goes on where the timer was
-- started, and none happens where it was not.
use owop_server_for_heroku_g.Base.{
  take, ◌++◌, ◌∷◌, ℕ, zero, suc, ◌≡◌, refl, ap, ◌∙◌, ◌*◌, ◌≤◌, true, false, ◌||◌, not, List, [],
  ◌∷◌, drop, length, length-drop, drop_all, arith, if◌then◌else◌, Bool-cases, inl, inr, sym, subst,
}
use owop_server_for_heroku_g.World.{World}
use owop_server_for_heroku_g.World.Steps.Sound.{scheduled}
use owop_server_for_heroku_g.World.Steps.Operations.{after_updates-live}
use owop_server_for_heroku_g.World.Updates.{Seen, is_empty, after_updates, send_updates}
use owop_server_for_heroku_g.World.Updates.Pending.{
  plupdates-after_updates, plleft-after_updates, active-after_updates,
}

-- A round: the timer calls if it was started, and not otherwise.
pub timer_round : (ℕ → Seen) → World → World
timer_round seen w = if w.upd_active then (send_updates seen w).0 else w

-- The rounds one after the other, with nothing else happening between them.
pub rounds : ℕ → (ℕ → Seen) → World → World
rounds zero seen w = w
rounds (suc k) seen w = rounds k seen (timer_round seen w)

-- Nothing is pending, and the timer is at rest.
pub record IsQuiet (w : World) : Type 0 where
  pub players : w.plupdates ≡ []
  pub departures : w.plleft ≡ []
  pub pixels : w.pxupdates ≡ []
  pub resting : w.upd_active ≡ false

timer_round-active :
    (seen : ℕ → Seen) (w : World) → w.upd_active ≡ true → timer_round seen w ≡ after_updates seen w
unfolding timer_round send_updates
timer_round-active seen w h = rw (h, timer_round) refl

timer_round-resting : (seen : ℕ → Seen) (w : World) → w.upd_active ≡ false → timer_round seen w ≡ w
unfolding timer_round
timer_round-resting seen w h = rw (h, timer_round) refl

rounds-resting : (k : ℕ) (seen : ℕ → Seen) (w : World) → w.upd_active ≡ false → rounds k seen w ≡ w
unfolding rounds
rounds-resting zero seen w h = refl
rounds-resting (suc k) seen w h =
    ap (rounds k seen) (timer_round-resting seen w h) ∙ rounds-resting k seen w h

is_empty-nil {ℓ} : {A : Type ℓ} (xs : List A) → is_empty xs ≡ true → xs ≡ []
is_empty-nil [] h = refl
is_empty-nil (x ∷ xs) h = absurd (cc)

-- Where someone is in the world, the timer rests only if nothing is pending.
scheduled-IsQuiet :
    (w : World) → scheduled w ≡ true → is_empty w.clients ≡ false → w.upd_active ≡ false → IsQuiet w
unfolding scheduled
scheduled-IsQuiet w s c h =
    let players : is_empty w.plupdates ≡ true = ground arith in
    let pixels : is_empty w.pxupdates ≡ true = ground arith in
    let departures : is_empty w.plleft ≡ true = ground arith in
    record {
      players = is_empty-nil w.plupdates players;
      departures = is_empty-nil w.plleft departures;
      pixels = is_empty-nil w.pxupdates pixels;
      resting = h;
    }

clients-after_updates : (seen : ℕ → Seen) (w : World) → (after_updates seen w).clients ≡ w.clients
unfolding after_updates
clients-after_updates seen w = refl

-- The last round that is needed.
after_updates-IsQuiet :
    (seen : ℕ → Seen) (w : World)
    → length w.plupdates ≤ 128
    → length w.plleft ≤ 255
    → IsQuiet (after_updates seen w)
after_updates-IsQuiet seen w hp hl =
    let no_players = drop_all 128 w.plupdates hp in
    let no_left = drop_all 255 w.plleft hl in
    record {
      players = plupdates-after_updates seen w ∙ no_players;
      departures = plleft-after_updates seen w ∙ no_left;
      pixels = unfold after_updates in refl;
      resting =
          active-after_updates seen w
          ∙ ap (λ l. not (is_empty l) || not (is_empty (drop 255 w.plleft))) no_players
          ∙ ap (λ l. not (is_empty l)) no_left;
    }

-- The rounds that come after a first one, which there is if something is pending.
rounds-first :
    (k : ℕ) (seen : ℕ → Seen) (w : World)
    → scheduled w ≡ true
    → is_empty w.clients ≡ false
    → IsQuiet (rounds k seen (after_updates seen w))
    → IsQuiet (rounds (suc k) seen w)
unfolding rounds
rounds-first k seen w s c later = elim (Bool-cases w.upd_active) [
  | inr resting ↦
      subst IsQuiet (sym (rounds-resting (suc k) seen w resting)) (scheduled-IsQuiet w s c resting)
  | inl active ↦
      subst (λ v. IsQuiet (rounds k seen v)) (sym (timer_round-active seen w active)) later
]

-- What the rounds tell of a list, of which a message takes the entries up to `max` at the front.
pub told : (World → List ℕ) → ℕ → ℕ → (ℕ → Seen) → World → List ℕ
told list max zero seen w = []
told list max (suc k) seen w =
    (if w.upd_active then take max (list w) else []) ++ told list max k seen (timer_round seen w)

take-drop : (n : ℕ) (xs : List ℕ) → take n xs ++ drop n xs ≡ xs
take-drop zero xs = refl
take-drop (suc n) [] = refl
take-drop (suc n) (x ∷ xs) = ap (λ l. x ∷ l) (take-drop n xs)

nil-length : (xs : List ℕ) → length xs ≤ 0 → xs ≡ []
nil-length [] h = refl
nil-length (x ∷ xs) h = absurd (omega arith)

module _ (list : World → List ℕ) (max : ℕ) (seen : ℕ → Seen)
    (after : (w : World) → list (after_updates seen w) ≡ drop max (list w))
    (quiet : (w : World) → IsQuiet w → list w ≡ []) where
  told-resting : (k : ℕ) (w : World) → w.upd_active ≡ false → told list max k seen w ≡ []
  unfolding told
  told-resting zero w h = refl
  told-resting (suc k) w h =
      ap (λ b. (if b then take max (list w) else []) ++ told list max k seen (timer_round seen w)) h
      ∙ ap (told list max k seen) (timer_round-resting seen w h)
      ∙ told-resting k w h

  -- Enough rounds tell all of the list, once and in its order.
  told-all :
      (k : ℕ) (w : World)
      → scheduled w ≡ true
      → is_empty w.clients ≡ false
      → length (list w) ≤ max * k
      → told list max k seen w ≡ list w
  unfolding told
  told-all zero w s c h = sym (nil-length (list w) (omega arith))
  told-all (suc k) w s c h = elim (Bool-cases w.upd_active) [
    | inr resting ↦ told-resting (suc k) w resting ∙ sym (quiet w (scheduled-IsQuiet w s c resting))
    | inl active ↦
        let w' = after_updates seen w in
        ap (λ b. (if b then take max (list w) else []) ++ told list max k seen (timer_round seen w))
          active
        ∙ ap (λ v. take max (list w) ++ told list max k seen v) (timer_round-active seen w active)
        ∙ ap (λ l. take max (list w) ++ l)
            (told-all k w' (after_updates-live seen w)
                (ap is_empty (clients-after_updates seen w) ∙ c)
                (omega (arith, h, ap length (after w), length-drop max (list w)))
              ∙ after w)
        ∙ take-drop max (list w)
  ]

rounds-IsQuiet :
    (k : ℕ) (seen : ℕ → Seen) (w : World)
    → scheduled w ≡ true
    → is_empty w.clients ≡ false
    → length w.plupdates ≤ 128 * suc k
    → length w.plleft ≤ 255 * suc k
    → IsQuiet (rounds (suc k) seen w)
unfolding rounds
rounds-IsQuiet zero seen w s c hp hl =
    rounds-first zero seen w s c (after_updates-IsQuiet seen w (omega arith) (omega arith))
rounds-IsQuiet (suc k) seen w s c hp hl =
    let w' = after_updates seen w in
    rounds-first (suc k) seen w s c (
      rounds-IsQuiet k seen w' (after_updates-live seen w)
        (ap is_empty (clients-after_updates seen w) ∙ c)
        (omega (arith, hp, length-drop 128 w.plupdates, ap length (plupdates-after_updates seen w)))
        (omega (arith, hl, length-drop 255 w.plleft, ap length (plleft-after_updates seen w))))

-- The pending updates are worked off: in a world that someone is in, and whose timer was started if
-- anything is pending, k rounds of the timer leave nothing pending and the timer at rest, for a k of one
-- or more with at most 128 k players and 255 k departures pending at first. The entries that the messages
-- of these rounds have room for are all the players and all the departures, each once and in their order.
-- A round happens only if the timer was started before it.
pub rounds-pending :
    (k : ℕ) (seen : ℕ → Seen) (w : World)
    → scheduled w ≡ true
    → is_empty w.clients ≡ false
    → length w.plupdates ≤ 128 * suc k
    → length w.plleft ≤ 255 * suc k
    → IsQuiet (rounds (suc k) seen w)
      × (told (λ v. v.plupdates) 128 (suc k) seen w ≡ w.plupdates)
      × (told (λ v. v.plleft) 255 (suc k) seen w ≡ w.plleft)
rounds-pending k seen w s c hp hl = (
  rounds-IsQuiet k seen w s c hp hl,
  told-all (λ v. v.plupdates) 128 seen (plupdates-after_updates seen) (λ v q. q.players) (suc k) w s
      c hp,
  told-all (λ v. v.plleft) 255 seen (plleft-after_updates seen) (λ v q. q.departures) (suc k) w s c
      hl,
)
