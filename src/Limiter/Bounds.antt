-- ===== src/Limiter/Bounds.antt =====
-- What the token bucket of limiter.cpp lets through.
use owop_server_for_heroku_g.Base.{
  ℕ, ◌≤◌, ◌<◌, ◌-◌, ◌≡◌, refl, false, List, [], ◌∷◌, arith, lt→ltb, if◌then◌else◌, Bool-cases, inl,
  inr,
}
use owop_server_for_heroku_g.Limiter.{
  Float, Bucket, bucket, set_rate, refill, can_spend, Simple, simple_can_spend,
}

-- The allowance is at most the rate, and the period is no zero divisor.
pub record IsValid {F : Type 0} ⦃fl : Float F⦄ (b : Bucket F) : Type 0 where
  pub capped : fl.lt (fl.of_uint16 b.rate) b.allowance ≡ false
  pub divides : 1 ≤ b.per

-- The calls that the program makes of a bucket.
pub data Call : Type 0 where
  spends : ℕ → ℕ → Call
  sets : ℕ → ℕ → Call

module _ {F : Type 0} ⦃fl : Float F⦄ where
  pub bucket-IsValid : (rate per : ℕ) → 1 ≤ per → IsValid (bucket {F = F} rate per)
  unfolding bucket
  bucket-IsValid rate per h = record { capped = fl.lt_irrefl (fl.of_uint16 rate); divides = h }

  refill_capped : (b : Bucket F) (now : ℕ) → fl.lt (fl.of_uint16 b.rate) (refill b now) ≡ false
  unfolding refill
  refill_capped b now = ground (arith, fl.lt_irrefl (fl.of_uint16 b.rate))

  pub can_spend-IsValid :
      (b : Bucket F) (now count : ℕ) → IsValid b → IsValid (can_spend b now count).0
  unfolding can_spend
  can_spend-IsValid b now count v =
      let c = refill b now in
      let low = fl.sub_not_above (fl.of_uint16 b.rate) c count (refill_capped b now) in
      elim (Bool-cases (fl.lt c (fl.of_uint16 count))) [
        | inl refused ↦
            rw (refused, can_spend) (record { capped = refill_capped b now; divides = v.divides })
        | inr granted ↦ rw (granted, can_spend) (record { capped = low; divides = v.divides })
      ]

  pub set_rate-IsValid : (b : Bucket F) (rate per : ℕ) → IsValid (set_rate b rate per)
  unfolding set_rate
  set_rate-IsValid b rate per = record {
    capped = ground (arith, fl.lt_irrefl (fl.of_uint16 rate));
    divides = ground arith;
  }

  unfoldable pub after : Bucket F → Call → Bucket F
  after b (spends now count) = (can_spend b now count).0
  after b (sets rate per) = set_rate b rate per

  unfoldable pub after_all : Bucket F → List Call → Bucket F
  unfolding after
  after_all b [] = b
  after_all b (c ∷ cs) = after_all (after b c) cs

  -- Whatever calls are made on a bucket with an allowance of at most its rate and a positive
  -- period, the allowance never exceeds the rate of the moment and the period never becomes zero.
  pub after_all-IsValid : (b : Bucket F) (cs : List Call) → IsValid b → IsValid (after_all b cs)
  unfolding after_all after
  after_all-IsValid b [] v = v
  after_all-IsValid b (spends now count ∷ cs) v =
      after_all-IsValid (can_spend b now count).0 cs (can_spend-IsValid b now count v)
  after_all-IsValid b (sets rate per ∷ cs) v =
      after_all-IsValid (set_rate b rate per) cs (set_rate-IsValid b rate per)

  -- A request for more tokens than the rate of the bucket is refused at any time, however long the
  -- bucket was left to fill.
  pub can_spend_above_rate :
      (b : Bucket F) (now count : ℕ) → b.rate < count → (can_spend b now count).1 ≡ false
  unfolding can_spend
  can_spend_above_rate b now count h =
      rw
        (
          fl.lt_of_not_lt _ _ _ (refill_capped b now)
              (fl.of_uint16_mono b.rate count (lt→ltb _ _ h)),
          can_spend,
        )
        refl

  -- The times at which `Simple` grants an event, for calls at the given times.
  unfoldable pub grants : Simple F → List ℕ → List ℕ
  grants s [] = []
  grants s (now ∷ times) =
      let rest = grants (simple_can_spend s now).0 times in
      if (simple_can_spend s now).1 then now ∷ rest else rest

  -- From the last event on, each grant comes at least the gap after the one before it.
  abbrev pub Spaced : F → ℕ → List ℕ → Type 0
  Spaced gap last [] = Unit
  Spaced gap last (t ∷ ts) = (fl.lt (fl.seconds (t - last)) gap ≡ false) × Spaced gap t ts

  -- Whatever the times of the calls, two grants in a row are never closer than the gap, and the first
  -- is that far from the last event before.
  pub gap_kept : (s : Simple F) (times : List ℕ) → Spaced s.gap s.last_check (grants s times)
  unfolding grants simple_can_spend
  gap_kept s [] = tt
  gap_kept s (now ∷ times) = elim (Bool-cases (fl.lt (fl.seconds (now - s.last_check)) s.gap)) [
    | inl early ↦ rw (early, grants, simple_can_spend) (gap_kept s times)
    | inr late ↦
        rw (late, grants, simple_can_spend) (late, gap_kept (record s { last_check = now }) times)
  ]
