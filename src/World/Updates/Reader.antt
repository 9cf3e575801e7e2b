-- ===== src/World/Updates/Reader.antt =====
-- A reader of the UPDATE message, written from its layout, and what it makes of the parts that the
-- loops of World::send_updates write.
use owop_server_for_heroku_g.Base.{
  ℕ, zero, suc, ◌≡◌, refl, ◌∙◌, ◌+◌, ◌*◌, ◌/◌, ◌%◌, ◌^◌, ◌<◌, Option, none, some, List, [], ◌∷◌,
  ◌++◌, if◌then◌else◌, map, take, drop, length, min, ◌==◌, arith, All, length-append, append_assoc,
}
use owop_server_for_heroku_g.Base.Words.{Bytes, le32}
use owop_server_for_heroku_g.World.{Pixupd}
use owop_server_for_heroku_g.World.Updates.{Seen, seen_bytes, pixel_bytes, write_some}

module _ {A : Type 0} (f : A → Bytes) where
  pub write_some-count : (max : ℕ) (l : List A) → (write_some f max l).count ≡ min max (length l)
  unfolding write_some
  write_some-count max [] = omega arith
  write_some-count zero (a ∷ xs) = omega arith
  write_some-count (suc max) (a ∷ xs) = omega (arith, write_some-count max xs)

  pub write_some-left : (max : ℕ) (l : List A) → (write_some f max l).left ≡ drop max l
  unfolding write_some
  write_some-left zero [] = refl
  write_some-left (suc max) [] = refl
  write_some-left zero (a ∷ xs) = refl
  write_some-left (suc max) (a ∷ xs) = write_some-left max xs

  pub length-write_some :
      (k max : ℕ) (l : List A)
      → ((a : A) → length (f a) ≡ k)
      → length (write_some f max l).bytes ≡ k * (write_some f max l).count
  unfolding write_some
  length-write_some k max [] h = omega arith
  length-write_some k zero (a ∷ xs) h = omega arith
  length-write_some k (suc max) (a ∷ xs) h =
      let tail = length-write_some k max xs h in
      length-append (f a) (write_some f max xs).bytes ∙ omega (arith, h a, tail)

-- A reader of `n` entries, each read by `read`.
pub record Read (A : Type 0) : Type 0 where
  pub items : List A
  pub rest : Bytes

pub read_some : {A : Type 0} → (Bytes → Option (A × Bytes)) → ℕ → Bytes → Read A
read_some read zero bs = record { items = []; rest = bs }
read_some read (suc n) bs = elim (read bs) [
  | none ↦ record { items = []; rest = bs }
  | some (a, rest) ↦ let r = read_some read n rest in record { items = a ∷ r.items; rest = r.rest }
]

pub read_some-write_some :
    {A B : Type 0} (f : A → Bytes) (g : A → B) (read : Bytes → Option (B × Bytes)) (max : ℕ)
    (l : List A) (rest : Bytes)
    → All (λ a. (bs : Bytes) → read (f a ++ bs) ≡ some (g a, bs)) l
    → read_some read (write_some f max l).count ((write_some f max l).bytes ++ rest)
      ≡ record { items = map g (take max l); rest = rest }
unfolding write_some read_some
read_some-write_some f g read zero [] rest h = refl
read_some-write_some f g read (suc max) [] rest h = refl
read_some-write_some f g read zero (a ∷ xs) rest h = refl
read_some-write_some f g read (suc max) (a ∷ xs) rest (ha, h) =
    let n : (write_some f max xs).count + 1 ≡ suc (write_some f max xs).count = omega arith in
    rw
      (
        n,
        append_assoc (f a) (write_some f max xs).bytes rest,
        ha ((write_some f max xs).bytes ++ rest),
        read_some-write_some f g read max xs rest h,
        read_some,
      )
      refl

pub read_seen : Bytes → Option (Seen × Bytes)
read_seen (i0 ∷ i1 ∷ i2 ∷ i3 ∷ x0 ∷ x1 ∷ x2 ∷ x3 ∷ y0 ∷ y1 ∷ y2 ∷ y3 ∷ r ∷ g ∷ b ∷ tool ∷ rest) =
    some (
      record {
        id = i0 + i1 * 2 ^ 8 + i2 * 2 ^ 16 + i3 * 2 ^ 24;
        pos = record {
          x = x0 + x1 * 2 ^ 8 + x2 * 2 ^ 16 + x3 * 2 ^ 24;
          y = y0 + y1 * 2 ^ 8 + y2 * 2 ^ 16 + y3 * 2 ^ 24;
          r = r;
          g = g;
          b = b;
          tool = tool;
        };
      },
      rest,
    )
read_seen bs = none

pub read_pixel : Bytes → Option (Pixupd × Bytes)
read_pixel (x0 ∷ x1 ∷ x2 ∷ x3 ∷ y0 ∷ y1 ∷ y2 ∷ y3 ∷ r ∷ g ∷ b ∷ rest) = some (
  record {
    x = x0 + x1 * 2 ^ 8 + x2 * 2 ^ 16 + x3 * 2 ^ 24;
    y = y0 + y1 * 2 ^ 8 + y2 * 2 ^ 16 + y3 * 2 ^ 24;
    r = r;
    g = g;
    b = b;
  },
  rest,
)
read_pixel bs = none

pub read_id : Bytes → Option (ℕ × Bytes)
read_id (i0 ∷ i1 ∷ i2 ∷ i3 ∷ rest) = some (i0 + i1 * 2 ^ 8 + i2 * 2 ^ 16 + i3 * 2 ^ 24, rest)
read_id bs = none

-- An `int32_t` or `uint32_t`.
abbrev pub IsWord : ℕ → Type 0
IsWord n = n < 2 ^ 32

abbrev pub IsSeen : Seen → Type 0
IsSeen c = IsWord c.id × IsWord c.pos.x × IsWord c.pos.y

abbrev pub IsPixel : Pixupd → Type 0
IsPixel p = IsWord p.x × IsWord p.y

word_back :
    (n : ℕ)
    → IsWord n
    → n % 256 + n / 2 ^ 8 % 256 * 2 ^ 8 + n / 2 ^ 16 % 256 * 2 ^ 16 + n / 2 ^ 24 % 256 * 2 ^ 24 ≡ n
word_back n h = omega arith

pub read_seen-seen_bytes :
    (c : Seen) (bs : Bytes) → IsSeen c → read_seen (seen_bytes c ++ bs) ≡ some (c, bs)
unfolding read_seen seen_bytes
read_seen-seen_bytes c bs (hi, hx, hy) =
    rw (word_back c.id hi, word_back c.pos.x hx, word_back c.pos.y hy) refl

pub read_pixel-pixel_bytes :
    (p : Pixupd) (bs : Bytes) → IsPixel p → read_pixel (pixel_bytes p ++ bs) ≡ some (p, bs)
unfolding read_pixel pixel_bytes
read_pixel-pixel_bytes p bs (hx, hy) = rw (word_back p.x hx, word_back p.y hy) refl

pub read_id-le32 : (id : ℕ) (bs : Bytes) → IsWord id → read_id (le32 id ++ bs) ≡ some (id, bs)
unfolding read_id
read_id-le32 id bs h = rw (word_back id h) refl

-- What a client makes of the message.
pub record Update : Type 0 where
  pub players : List Seen
  pub pixels : List Pixupd
  pub left : List ℕ

unfoldable pub read_left : List Seen → List Pixupd → Bytes → Option Update
read_left players pixels [] = none
read_left players pixels (m ∷ bs) =
    let r = read_some read_id m bs in
    elim r.rest [
      | [] ↦ some (record { players = players; pixels = pixels; left = r.items })
      | b ∷ more ↦ none
    ]

unfoldable pub read_pixels : List Seen → Bytes → Option Update
unfolding read_left
read_pixels players (lo ∷ hi ∷ bs) =
    let r = read_some read_pixel (lo + hi * 256) bs in read_left players r.items r.rest
read_pixels players bs = none

-- Tag, players, pixels and departures, each list with its length in front, and nothing behind.
unfoldable pub read_update : Bytes → Option Update
unfolding read_pixels
read_update (tag ∷ n ∷ bs) =
    let r = read_some read_seen n bs in if tag == 1 then read_pixels r.items r.rest else none
read_update bs = none
