-- ===== src/Limiter/Whole.antt =====
-- Whole numbers in place of floats, for runs.
use owop_server_for_heroku_g.Base.{ℕ, ◌+◌, ◌-◌, ◌*◌, ◌/◌, ◌^◌, ◌≡◌, true, false, arith, ltb}
use owop_server_for_heroku_g.Limiter.{Float}

pub not_lt : (r a c : ℕ) → ltb r a ≡ false → ltb r c ≡ true → ltb a c ≡ true
not_lt r a c h k = ground arith

pub not_above : (r a n : ℕ) → ltb r a ≡ false → ltb r (a - n) ≡ false
not_above r a n h = ground arith

pub irrefl : (a : ℕ) → ltb a a ≡ false
irrefl a = ground arith

instance abbrev pub whole : Float ℕ
whole = record {
  of_uint16 = λ n. n;
  seconds = λ n. n / 10 ^ 9;
  add = λ a b. a + b;
  sub = λ a b. a - b;
  mul = λ a b. a * b;
  div = λ a b. a / b;
  lt = ltb;
  lt_irrefl = irrefl;
  lt_of_not_lt = not_lt;
  sub_not_above = not_above;
  of_uint16_mono = λ m n h. h;
}
