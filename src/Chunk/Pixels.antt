-- ===== src/Chunk/Pixels.antt =====
-- The operations on the pixels of a chunk.
use owop_server_for_heroku_g.Base.{
  ℕ, zero, suc, ◌+◌, ◌*◌, ◌<◌, ◌^◌, ◌%◌, ◌/◌, ◌≡◌, ◌≢◌, refl, ap, ◌∙◌, true, false, ◌&&◌, arith,
  ◌==◌, if◌then◌else◌, get_or, set, length, take_all, drop_all, append-nil, length-set, get_or-set,
  All, All-set, Bool-cases, inl, inr,
}
use owop_server_for_heroku_g.Base.Words.{Bytes, IsByte}
use owop_server_for_heroku_g.Chunk.{
  Rgb, Chunk, IsFull, has_color, data_size, fill, background, set_pixel, set_bytes, clear,
}

pub record IsColor (clr : Rgb) : Type 0 where
  pub r : clr.r < 256
  pub g : clr.g < 256
  pub b : clr.b < 256

abbrev pub pixel_at : Chunk → ℕ → ℕ → Rgb
pixel_at c x y =
    let pos = (y * 16 + x) * 3 in
    record {
      r = get_or c.pixels pos 0;
      g = get_or c.pixels (pos + 1) 0;
      b = get_or c.pixels (pos + 2) 0;
    }

abbrev written : Bytes → ℕ → Rgb → Bytes
written s pos clr = set (set (set s pos clr.r) (pos + 1) clr.g) (pos + 2) clr.b

length-written : (s : Bytes) (pos : ℕ) (clr : Rgb) → length (written s pos clr) ≡ length s
length-written s pos clr =
    length-set (set (set s pos clr.r) (pos + 1) clr.g) (pos + 2) clr.b
    ∙ length-set (set s pos clr.r) (pos + 1) clr.g
    ∙ length-set s pos clr.r

get_or-written :
    (s : Bytes) (pos j : ℕ) (clr : Rgb)
    → pos + 2 < length s
    → get_or (written s pos clr) j 0 ≡ (
        if pos + 2 == j
        then clr.b
        else if pos + 1 == j
        then clr.g
        else if pos == j
        then clr.r
        else get_or s j 0)
get_or-written s pos j clr h =
    let s1 = set s pos clr.r in
    let s2 = set s1 (pos + 1) clr.g in
    let l1 : length s1 ≡ length s = length-set s pos clr.r in
    let l2 : length s2 ≡ length s = length-set s1 (pos + 1) clr.g ∙ l1 in
    rw
      (
        get_or-set s2 (pos + 2) j clr.b 0 (omega (arith, l2)),
        get_or-set s1 (pos + 1) j clr.g 0 (omega (arith, l1)),
        get_or-set s pos j clr.r 0 (omega arith),
      )
      refl

-- Writing one pixel, with coordinates below 16, changes that pixel to the given colour and no other
-- pixel.
pub pixel_at-set_pixel :
    (c : Chunk) (x y i j : ℕ) (clr : Rgb)
    → IsFull c
    → x < 16
    → y < 16
    → i < 16
    → j < 16
    → pixel_at (set_pixel c x y clr).0 i j ≡ (if x == i && y == j then clr else pixel_at c i j)
unfolding set_pixel
pixel_at-set_pixel c x y i j clr full hx hy hi hj =
    let pos = (y * 16 + x) * 3 in
    let at = (j * 16 + i) * 3 in
    let room : pos + 2 < length c.pixels = omega (arith, full.sized) in
    ground (
      arith,
      get_or-written c.pixels pos at clr room,
      get_or-written c.pixels pos (at + 1) clr room,
      get_or-written c.pixels pos (at + 2) clr room,
    )

-- `set_data` reports a change, and marks the chunk as changed, exactly when the pixel had another
-- colour; otherwise the chunk stays as it was.
pub set_pixel-changed :
    (c : Chunk) (x y : ℕ) (clr : Rgb)
    → ((set_pixel c x y clr).1 ≡ true
        → pixel_at c x y ≢ clr × ((set_pixel c x y clr).0.changed ≡ true))
      × ((set_pixel c x y clr).1 ≡ false → (pixel_at c x y ≡ clr) × ((set_pixel c x y clr).0 ≡ c))
unfolding set_pixel
set_pixel-changed c x y clr =
    (λ h. (λ e. ground arith, ground arith), λ h. (ground arith, ground arith))

pub set_pixel-IsFull :
    (c : Chunk) (x y : ℕ) (clr : Rgb) → IsColor clr → IsFull c → IsFull (set_pixel c x y clr).0
unfolding set_pixel
set_pixel-IsFull c x y clr k full =
    let pos = (y * 16 + x) * 3 in
    let s1 = set c.pixels pos clr.r in
    let s2 = set s1 (pos + 1) clr.g in
    let same_size = length-written c.pixels pos clr in
    let b1 = All-set IsByte c.pixels pos clr.r k.r full.bytes in
    let b2 = All-set IsByte s1 (pos + 1) clr.g k.g b1 in
    let b3 = All-set IsByte s2 (pos + 2) clr.b k.b b2 in
    elim (Bool-cases (has_color c.pixels pos clr)) [
      | inl same ↦ rw (same, set_pixel) full
      | inr other ↦ rw (other, set_pixel) (record { sized = same_size ∙ full.sized; bytes = b3 })
    ]

-- A paste replaces the pixels by the first 768 bytes of what was sent.
pub pixels-set_bytes :
    (c : Chunk) (s : Bytes) → IsFull c → length s ≡ data_size → (set_bytes c s data_size).pixels ≡ s
unfolding set_bytes
pixels-set_bytes c s full h =
    rw
      (
        take_all data_size s (omega (arith, h)),
        drop_all data_size c.pixels (omega (arith, full.sized)),
      )
      (append-nil s)

fill-IsByte : (bgclr n i : ℕ) → All IsByte (fill bgclr n i)
unfolding fill
fill-IsByte bgclr zero i = tt
fill-IsByte bgclr (suc n) i = (omega arith, fill-IsByte bgclr n (i + 1))

length-fill : (bgclr n i : ℕ) → length (fill bgclr n i) ≡ n
unfolding fill
length-fill bgclr zero i = refl
length-fill bgclr (suc n) i = ap suc (length-fill bgclr n (i + 1))

pub length-background : (bgclr : ℕ) → length (background bgclr) ≡ data_size
unfolding background
length-background bgclr = length-fill bgclr data_size 0

pub background-IsByte : (bgclr : ℕ) → All IsByte (background bgclr)
unfolding background
background-IsByte bgclr = fill-IsByte bgclr data_size 0

get_or-fill :
    (bgclr n i k : ℕ) → k < n → get_or (fill bgclr n i) k 0 ≡ bgclr / 2 ^ ((i + k) % 3 * 8) % 256
unfolding fill
get_or-fill bgclr zero i k h = elim h [ ]
get_or-fill bgclr (suc n) i zero h =
    ap (λ m. bgclr / 2 ^ (m % 3 * 8) % 256) {y = i + 0} (omega arith)
get_or-fill bgclr (suc n) i (suc k) h =
    get_or-fill bgclr n (i + 1) k (omega arith)
    ∙ ap (λ m. bgclr / 2 ^ (m % 3 * 8) % 256) {y = i + suc k} (omega arith)

get_or-background :
    (bgclr k : ℕ) → k < data_size → get_or (background bgclr) k 0 ≡ bgclr / 2 ^ (k % 3 * 8) % 256
unfolding background
get_or-background bgclr k h =
    get_or-fill bgclr data_size 0 k h
    ∙ ap (λ m. bgclr / 2 ^ (m % 3 * 8) % 256) {y = k} (omega arith)

channel :
    (bgclr k n : ℕ)
    → k < data_size
    → k % 3 ≡ n
    → get_or (background bgclr) k 0 ≡ bgclr / 2 ^ (n * 8) % 256
channel bgclr k n h e = get_or-background bgclr k h ∙ ap (λ m. bgclr / 2 ^ (m * 8) % 256) e

-- After `clear` every pixel has the background colour, red in the lowest byte of it, and the chunk
-- will be saved.
pub pixel_at-clear :
    (c : Chunk) (x y : ℕ)
    → x < 16
    → y < 16
    → (pixel_at (clear c) x y
        ≡ record { r = c.bgclr % 256; g = c.bgclr / 2 ^ 8 % 256; b = c.bgclr / 2 ^ 16 % 256 })
      × ((clear c).changed ≡ true)
unfolding clear
pixel_at-clear c x y hx hy =
    let pos = (y * 16 + x) * 3 in
    let red : get_or (background c.bgclr) pos 0 ≡ c.bgclr % 256 =
      channel c.bgclr pos 0 (omega arith) (omega arith) ∙ omega arith in
    let green = channel c.bgclr (pos + 1) 1 (omega arith) (omega arith) in
    let blue = channel c.bgclr (pos + 2) 2 (omega arith) (omega arith) in
    (cc (red, green, blue), refl)

pub clear-IsFull : (c : Chunk) → IsFull (clear c)
unfolding clear
clear-IsFull c = record { sized = length-background c.bgclr; bytes = background-IsByte c.bgclr }
