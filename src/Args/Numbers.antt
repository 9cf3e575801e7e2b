-- ===== src/Args/Numbers.antt =====
-- The numbers among the arguments: std::stoul cut to a `uint32_t`, and std::stoi.
use owop_server_for_heroku_g.Base.{
  ℕ, ◌-◌, ◌%◌, ◌^◌, Bool, true, false, Option, none, some, [], ◌∷◌, ltb, leb, ◌==◌, if◌then◌else◌,
}
use owop_server_for_heroku_g.Base.Words.{Bytes}
use owop_server_for_heroku_g.World.Props.Stoul.{
  Parsed, value, invalid_argument, out_of_range, digit_of, digits, skip_space, stoul,
}

-- The handlers of both exceptions return.
unfoldable pub read_u32 : Bytes → Option ℕ
read_u32 arg = elim (stoul 10 arg) [
  | value n ↦ some (n % 2 ^ 32)
  | invalid_argument ↦ none
  | out_of_range ↦ none
]

-- An `int` is its bit pattern.
unfoldable pub in_int : Bool → ℕ → Parsed
in_int true n = if ltb (2 ^ 31) n then out_of_range else value ((2 ^ 32 - n) % 2 ^ 32)
in_int false n = if leb (2 ^ 31) n then out_of_range else value n

unfoldable pub int_digits : Bool → Bytes → Parsed
int_digits negative [] = invalid_argument
int_digits negative (c ∷ bs) = elim (digit_of 10 c) [
  | none ↦ invalid_argument
  | some d ↦ in_int negative (digits 10 d bs)
]

unfoldable pub int_signed : Bytes → Parsed
int_signed [] = invalid_argument
int_signed (c ∷ bs) =
    if c == 45 then int_digits true bs else int_digits false (if c == 43 then bs else c ∷ bs)

unfoldable pub stoi : Bytes → Parsed
stoi bs = int_signed (skip_space bs)

unfoldable pub read_int : Bytes → Option ℕ
read_int arg = elim (stoi arg) [ value n ↦ some n | invalid_argument ↦ none | out_of_range ↦ none ]
