-- ===== src/World/Props/Stoul.antt =====
-- std::stoul with an `unsigned long` of 64 bits: white space, a sign, for base 16 the prefix 0x, then
-- digits as far as they go. What follows is not read.
use owop_server_for_heroku_g.Base.{
  ℕ, ◌+◌, ◌-◌, ◌*◌, ◌%◌, ◌^◌, Bool, true, false, ◌&&◌, ◌||◌, Option, none, some, [], ◌∷◌, ltb, leb,
  ◌==◌, if◌then◌else◌,
}
use owop_server_for_heroku_g.Base.Words.{Bytes}

pub data Parsed : Type 0 where
  value : ℕ → Parsed
  invalid_argument : Parsed
  out_of_range : Parsed

unfoldable pub digit : ℕ → Option ℕ
digit c =
    if leb 48 c && leb c 57
    then some (c - 48)
    else if leb 97 c && leb c 122
    then some (c - 87)
    else if leb 65 c && leb c 90
    then some (c - 55)
    else none

unfoldable pub digit_of : ℕ → ℕ → Option ℕ
digit_of base c = elim (digit c) [ none ↦ none | some d ↦ if ltb d base then some d else none ]

-- The value of the digits, once one of them has been read.
unfoldable pub digits : ℕ → ℕ → Bytes → ℕ
digits base acc [] = acc
digits base acc (c ∷ bs) = elim (digit_of base c) [
  | none ↦ acc
  | some d ↦ digits base (acc * base + d) bs
]

unfoldable pub skip_space : Bytes → Bytes
skip_space [] = []
skip_space (c ∷ bs) =
    let rest = skip_space bs in if c == 32 || (leb 9 c && leb c 13) then rest else c ∷ bs

unfoldable pub skip_prefix : ℕ → Bytes → Bytes
skip_prefix base (z ∷ x ∷ c ∷ bs) = elim (digit_of base c) [
  | none ↦ z ∷ x ∷ c ∷ bs
  | some d ↦ if base == 16 && z == 48 && (x == 120 || x == 88) then c ∷ bs else z ∷ x ∷ c ∷ bs
]
skip_prefix base bs = bs

-- A value above ULONG_MAX is out of range; a minus sign negates modulo 2 ^ 64.
unfoldable pub magnitude : Bool → ℕ → Bytes → Parsed
magnitude negative base [] = invalid_argument
magnitude negative base (c ∷ bs) = elim (digit_of base c) [
  | none ↦ invalid_argument
  | some d ↦
      let n = digits base d bs in
      if leb (2 ^ 64) n then out_of_range else value (if negative then (2 ^ 64 - n) % 2 ^ 64 else n)
]

unfoldable pub signed : ℕ → Bytes → Parsed
signed base [] = invalid_argument
signed base (c ∷ bs) =
    if c == 45
    then magnitude true base (skip_prefix base bs)
    else magnitude false base (skip_prefix base (if c == 43 then bs else c ∷ bs))

unfoldable pub stoul : ℕ → Bytes → Parsed
stoul base bs = signed base (skip_space bs)
