-- ===== src/Limiter.antt =====
-- limiter.cpp and limiter.hpp: the token bucket and the minimum gap between two events. The clock is
-- an argument, in its ticks; `float` is a type with the operations below, since antt has no floats.
pub mod Bounds
pub mod Whole
mod Tests
use owop_server_for_heroku_g.Base.{ℕ, ◌-◌, ◌≡◌, Bool, true, false, ltb, if◌then◌else◌}

-- What the code uses of `float`. The laws hold of the values that are not NaN.
pub record Float (F : Type 0) : Type 0 where
  pub of_uint16 : ℕ → F
  pub seconds : ℕ → F
  pub add : F → F → F
  pub sub : F → F → F
  pub mul : F → F → F
  pub div : F → F → F
  pub lt : F → F → Bool
  pub lt_irrefl : (a : F) → lt a a ≡ false
  pub lt_of_not_lt : (r a c : F) → lt r a ≡ false → lt r c ≡ true → lt a c ≡ true
  pub sub_not_above : (r a : F) (n : ℕ) → lt r a ≡ false → lt r (sub a (of_uint16 n)) ≡ false
  pub of_uint16_mono : (m n : ℕ) → ltb m n ≡ true → lt (of_uint16 m) (of_uint16 n) ≡ true

pub record Bucket (F : Type 0) : Type 0 where
  pub rate : ℕ
  pub per : ℕ
  pub allowance : F
  pub last_check : ℕ

pub record Simple (F : Type 0) : Type 0 where
  pub gap : F
  pub last_check : ℕ

module _ {F : Type 0} ⦃fl : Float F⦄ where
  unfoldable pub bucket : ℕ → ℕ → Bucket F
  bucket rate per = record { rate = rate; per = per; allowance = fl.of_uint16 rate; last_check = 0 }

  unfoldable pub set_rate : Bucket F → ℕ → ℕ → Bucket F
  set_rate b nrate nper = record b {
    rate = nrate;
    per = if ltb nper 1 then 1 else nper;
    allowance = if fl.lt (fl.of_uint16 nrate) b.allowance then fl.of_uint16 nrate else b.allowance;
  }

  -- `allowance` after the refill and the cap of `can_spend`.
  unfoldable pub refill : Bucket F → ℕ → F
  refill b now =
      let passed = fl.seconds (now - b.last_check) in
      let a =
        fl.add b.allowance (fl.mul passed (fl.div (fl.of_uint16 b.rate) (fl.of_uint16 b.per))) in
      if fl.lt (fl.of_uint16 b.rate) a then fl.of_uint16 b.rate else a

  unfoldable pub can_spend : Bucket F → ℕ → ℕ → Bucket F × Bool
  can_spend b now count =
      let a = refill b now in
      let checked = record b { allowance = a; last_check = now } in
      if fl.lt a (fl.of_uint16 count)
      then (checked, false)
      else (record checked { allowance = fl.sub a (fl.of_uint16 count) }, true)

  unfoldable pub simple : F → Simple F
  simple gap = record { gap = gap; last_check = 0 }

  unfoldable pub simple_can_spend : Simple F → ℕ → Simple F × Bool
  simple_can_spend s now =
      if fl.lt (fl.seconds (now - s.last_check)) s.gap
      then (s, false)
      else (record s { last_check = now }, true)
