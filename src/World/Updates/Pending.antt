-- ===== src/World/Updates/Pending.antt =====
-- What World::send_updates leaves for the next round of the timer.
use owop_server_for_heroku_g.Base.{ℕ, ◌≡◌, ap, ◌∙◌, not, ◌||◌, drop}
use owop_server_for_heroku_g.Base.Words.{le32}
use owop_server_for_heroku_g.World.{World}
use owop_server_for_heroku_g.World.Updates.{Seen, seen_bytes, is_empty, after_updates}
use owop_server_for_heroku_g.World.Updates.Reader.{write_some-left}

pub plupdates-after_updates :
    (seen : ℕ → Seen) (w : World) → (after_updates seen w).plupdates ≡ drop 128 w.plupdates
unfolding after_updates
plupdates-after_updates seen w = write_some-left (λ ws. seen_bytes (seen ws)) 128 w.plupdates

pub plleft-after_updates :
    (seen : ℕ → Seen) (w : World) → (after_updates seen w).plleft ≡ drop 255 w.plleft
unfolding after_updates
plleft-after_updates seen w = write_some-left (λ id. le32 id) 255 w.plleft

pub active-after_updates :
    (seen : ℕ → Seen) (w : World)
    → (after_updates seen w).upd_active
      ≡ (not (is_empty (drop 128 w.plupdates)) || not (is_empty (drop 255 w.plleft)))
unfolding after_updates
active-after_updates seen w =
    ap (λ l. not (is_empty l) || not (is_empty (after_updates seen w).plleft))
      (plupdates-after_updates seen w)
    ∙ ap (λ l. not (is_empty (drop 128 w.plupdates)) || not (is_empty l))
        (plleft-after_updates seen w)
