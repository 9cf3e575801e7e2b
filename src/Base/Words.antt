-- ===== src/Base/Words.antt =====
-- Machine words: little-endian bytes, `int32_t` as its bit pattern, and quoted text as bytes.
use Prim.Native.Nat.{ℕ, zero, suc, ◌+◌, ◌-◌, ◌/◌, ◌%◌, ◌^◌, ◌<◌}
use Prim.Native.Char.{code}
use Prim.Native.String.{String}
use mathlib.Core.Path.{◌≡◌}
use mathlib.Core.Bool.{Bool}
use mathlib.Core.List.{List, [], ◌∷◌}
use native.Mathlib.Omega.{arith}
use owop_server_for_heroku_g.Base.Tests.{ltb, if◌then◌else◌}

abbrev pub Bytes : Type 0
Bytes = List ℕ

abbrev pub IsByte : ℕ → Type 0
IsByte b = b < 256

-- The bytes of a quoted text (all of them are ASCII).
unfoldable pub codes : String → Bytes
codes String.[] = []
codes (String.◌∷◌ c s) = code c ∷ codes s

-- A `uint16_t` or `uint32_t` as memcpy writes it, least significant byte first.
abbrev pub le16 : ℕ → Bytes
le16 n = (n % 256) ∷ (n / 256 % 256) ∷ []

abbrev pub le32 : ℕ → Bytes
le32 n = (n % 256) ∷ (n / 2 ^ 8 % 256) ∷ (n / 2 ^ 16 % 256) ∷ (n / 2 ^ 24 % 256) ∷ []

-- An `int32_t` is its bit pattern, below 2 ^ 32. The test of its sign bit:
abbrev pub is_negative : ℕ → Bool
is_negative w = ltb (2 ^ 31 - 1) w

-- x >> k of a signed value copies the sign bit.
abbrev pub sar : ℕ → ℕ → ℕ
sar w k = if is_negative w then w / 2 ^ k + (2 ^ 32 - 2 ^ (32 - k)) else w / 2 ^ k

-- a < b of two signed values: with the sign bit turned over, patterns are ordered as the values.
abbrev pub flip_sign : ℕ → ℕ
flip_sign w = (w + 2 ^ 31) % 2 ^ 32

abbrev pub slt : ℕ → ℕ → Bool
slt a b = ltb (flip_sign a) (flip_sign b)

abbrev pub add16 : ℕ → ℕ → ℕ
add16 a b = (a + b) % 2 ^ 16

abbrev pub sub16 : ℕ → ℕ → ℕ
sub16 a b = (a + 2 ^ 16 - b % 2 ^ 16) % 2 ^ 16

pub le32-injective : (m n : ℕ) → m < 2 ^ 32 → n < 2 ^ 32 → le32 m ≡ le32 n → m ≡ n
le32-injective m n hm hn h = ground arith

-- std::to_string of an unsigned value.
decimal_loop : ℕ → ℕ → Bytes → Bytes
decimal_loop zero n out = out
decimal_loop (suc fuel) n out =
    let rest = decimal_loop fuel (n / 10) ((48 + n % 10) ∷ out) in
    if ltb n 10 then (48 + n % 10) ∷ out else rest

-- Ten digits are enough for 32 bits; the fuel allows for 64.
unfoldable pub to_string : ℕ → Bytes
unfolding decimal_loop
to_string n = decimal_loop 20 n []
