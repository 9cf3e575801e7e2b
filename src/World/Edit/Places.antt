-- ===== src/World/Edit/Places.antt =====
-- Where a pixel of a world lies: its chunk and its place there.
use owop_server_for_heroku_g.Base.{
  ℕ, ◌≡◌, ◌≢◌, refl, ap, sym, ◌∙◌, ◌%◌, ◌^◌, ◌<◌, Bool, true, false, ◌&&◌, Option, some,
  if◌then◌else◌, ◌==◌, arith, Bool-cases, inl, inr,
}
use owop_server_for_heroku_g.Base.Words.{sar}
use owop_server_for_heroku_g.Base.Eq.{eq_bytes, eq_bytes_iff}
use owop_server_for_heroku_g.Chunk.{Rgb}
use owop_server_for_heroku_g.Database.Handles.{key}

-- A pixel is known by its chunk and its place there.
pub word_of : (x i : ℕ) → x < 2 ^ 32 → i < 2 ^ 32 → sar x 4 ≡ sar i 4 → x % 16 ≡ i % 16 → x ≡ i
word_of x i hx hi h k = ground arith

pub sar-word : (x : ℕ) → x < 2 ^ 32 → sar x 4 < 2 ^ 32
sar-word x h = ground arith

pub key-injective :
    (a b i j : ℕ)
    → a < 2 ^ 32
    → b < 2 ^ 32
    → i < 2 ^ 32
    → j < 2 ^ 32
    → key a b ≡ key i j
    → (a ≡ i) × (b ≡ j)
key-injective a b i j ha hb hi hj h = (ground arith, ground arith)

pub some-injective : {a b : Rgb} → some a ≡ some b → a ≡ b
some-injective h = cc

pub true-false : true ≢ false
true-false h = cc

pub same_place :
    (x i y j : ℕ)
    → x < 2 ^ 32
    → y < 2 ^ 32
    → i < 2 ^ 32
    → j < 2 ^ 32
    → sar x 4 ≡ sar i 4
    → sar y 4 ≡ sar j 4
    → (x == i && y == j) ≡ (x % 16 == i % 16 && y % 16 == j % 16)
same_place x i y j hx hy hi hj ex ey = ground (arith, word_of x i hx hi ex, word_of y j hy hj ey)

pub other_place :
    (x i y j : ℕ)
    → eq_bytes (key (sar x 4) (sar y 4)) (key (sar i 4) (sar j 4)) ≡ false
    → (x == i && y == j) ≡ false
other_place x i y j h = elim (Bool-cases (x == i && y == j)) [
  | inl same ↦
      let ex : x ≡ i = ground arith in
      let ey : y ≡ j = ground arith in
      let e : key (sar x 4) (sar y 4) ≡ key (sar i 4) (sar j 4) =
        ap (λ a. key (sar a 4) (sar y 4)) ex ∙ ap (λ b. key (sar i 4) (sar b 4)) ey in
      absurd (
        true-false
          (sym ((eq_bytes_iff (key (sar x 4) (sar y 4)) (key (sar i 4) (sar j 4))).1 e) ∙ h))
  | inr other ↦ other
]

pub choose :
    (b : Bool) (a d : Rgb) (o : Option Rgb)
    → o ≡ some d
    → some (if b then a else d) ≡ (if b then some a else o)
choose true a d o h = refl
choose false a d o h = sym h
