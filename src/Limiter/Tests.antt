-- ===== src/Limiter/Tests.antt =====
-- Runs of the token bucket, with whole numbers in place of floats.
use owop_server_for_heroku_g.Base.{ℕ, ◌≡◌, refl, false, [], ◌∷◌, arith}
use owop_server_for_heroku_g.Limiter.{Bucket, bucket, set_rate, refill, can_spend, simple}
use owop_server_for_heroku_g.Limiter.Whole.{whole}
use owop_server_for_heroku_g.Limiter.Bounds.{
  IsValid, bucket-IsValid, spends, sets, after_all, after_all-IsValid, gap_kept, Spaced, grants,
}

abbrev talk : Bucket ℕ
talk = bucket 34 44

drained : (can_spend (set_rate talk 0 1) 5_000_000_000 1).1 ≡ false
unfolding bucket set_rate can_spend refill
drained = refl

after_all-IsValid_example : IsValid (after_all talk (spends 7 3 ∷ sets 0 0 ∷ spends 9 1 ∷ []))
after_all-IsValid_example =
    after_all-IsValid talk (spends 7 3 ∷ sets 0 0 ∷ spends 9 1 ∷ [])
      (bucket-IsValid 34 44 (omega arith))

gap_kept_example :
    Spaced {F = ℕ} 2 0
      (grants {F = ℕ} (simple 2) (5_000_000_000 ∷ 6_000_000_000 ∷ 8_000_000_000 ∷ []))
unfolding simple
gap_kept_example = gap_kept (simple 2) (5_000_000_000 ∷ 6_000_000_000 ∷ 8_000_000_000 ∷ [])
