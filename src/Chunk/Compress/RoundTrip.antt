-- ===== src/Chunk/Compress/RoundTrip.antt =====
-- The CHUNKDATA message of `compress_data_to`: what a reader gets back, and its size.
use owop_server_for_heroku_g.Base.{
  ℕ, zero, suc, ◌+◌, ◌-◌, ◌*◌, ◌≤◌, ◌<◌, ◌^◌, ◌%◌, ◌/◌, ◌≡◌, refl, ap, sym, ◌∙◌, List, [], ◌∷◌,
  ◌++◌, arith, leb, length, length-append, All, Bool-cases, inl, inr, some,
}
use owop_server_for_heroku_g.Base.Words.{Bytes, IsByte}
use owop_server_for_heroku_g.Chunk.{Chunk, IsFull, data_size}
use owop_server_for_heroku_g.Chunk.Compress.{Point, scan, positions, emit, compress, bool_byte}
use owop_server_for_heroku_g.Chunk.Compress.Runs.{
  Run, IsPixels, pixels, points_of, width, runs, expand, scan-runs, expand-runs, sizes-runs,
}
use owop_server_for_heroku_g.Chunk.Compress.Emit.{payload, emit-payload, length-pixels}
use owop_server_for_heroku_g.Chunk.Compress.Decode.{
  Fits, read_body, read_body-payload, read_message,
}

total : List Run → ℕ
total [] = 0
total (r ∷ rs) = r.size * 3 + total rs

total-expand : (rs : List Run) → length (expand rs) ≡ total rs
unfolding total
total-expand [] = refl
total-expand (r ∷ rs) = omega (
  arith,
  length-append (pixels r.size r.a r.b r.c) (expand rs),
  length-pixels r.size r.a r.b r.c,
  total-expand rs,
)

points_of-Fits : (rs : List Run) (base : ℕ) → base + total rs < 2 ^ 16 → Fits (points_of base rs)
unfolding total
points_of-Fits [] base h = tt
points_of-Fits (r ∷ rs) base h = elim (Bool-cases (leb 3 r.size)) [
  | inl long ↦ rw long (omega arith, points_of-Fits rs (base + 5) (ground arith))
  | inr short ↦ rw short (points_of-Fits rs (base + r.size * 3) (omega arith))
]

length-payload : (rs : List Run) → length (payload rs) ≡ width rs
length-payload [] = refl
length-payload (r ∷ rs) = elim (Bool-cases (leb 3 r.size)) [
  | inl long ↦ rw long (omega (arith, length-payload rs))
  | inr short ↦ rw short (
      omega (
        arith,
        length-append (pixels r.size r.a r.b r.c) (payload rs),
        length-pixels r.size r.a r.b r.c,
        length-payload rs,
      ))
]

-- A run costs seven bytes with its position, and is written only if it had nine or more.
width_bound : (rs : List Run) (base : ℕ) → width rs + length (points_of base rs) * 2 ≤ total rs
unfolding total
width_bound [] base = omega arith
width_bound (r ∷ rs) base = elim (Bool-cases (leb 3 r.size)) [
  | inl long ↦ rw long (ground (arith, width_bound rs (base + 5)))
  | inr short ↦ rw short (omega (arith, width_bound rs (base + r.size * 3)))
]

length-positions : (ps : List Point) → length (positions ps) ≡ length ps * 2
unfolding positions
length-positions [] = refl
length-positions (p ∷ ps) = omega (arith, length-positions ps)

IsPixels-of_bytes : (s : Bytes) (n : ℕ) → All IsByte s → length s ≡ n * 3 → IsPixels s
IsPixels-of_bytes [] n b h = tt
IsPixels-of_bytes (x ∷ []) n b h = absurd (omega arith)
IsPixels-of_bytes (x ∷ y ∷ []) n b h = absurd (omega arith)
IsPixels-of_bytes (x ∷ y ∷ z ∷ s) zero b h = absurd (omega arith)
IsPixels-of_bytes (x ∷ y ∷ z ∷ s) (suc n) (bx, (by, (bz, b))) h =
    (bx, by, bz, IsPixels-of_bytes s n b (omega arith))

module _ (c : Chunk) (full : IsFull c) where
  whole : IsPixels c.pixels
  whole = IsPixels-of_bytes c.pixels 256 full.bytes (omega (arith, full.sized))

  found :
      ((scan c.pixels).points ≡ points_of 0 (runs c.pixels))
      × ((scan c.pixels).comp_bytes ≡ width (runs c.pixels))
  found = scan-runs c.pixels whole (omega (arith, full.sized)) (omega (arith, full.sized))

  emitted : emit (points_of 0 (runs c.pixels)) 0 c.pixels ≡ payload (runs c.pixels)
  emitted =
      ap (emit (points_of 0 (runs c.pixels)) 0) (sym (expand-runs c.pixels whole))
      ∙ emit-payload (runs c.pixels) 0

  total_pixels : total (runs c.pixels) ≡ data_size
  total_pixels =
      sym (total-expand (runs c.pixels)) ∙ ap length (expand-runs c.pixels whole) ∙ full.sized

  -- The body of the message, with the number of runs as its two bytes give it.
  body :
      read_body
        (length (points_of 0 (runs c.pixels)) % 256
          + length (points_of 0 (runs c.pixels)) / 256 % 256 * 256)
        (positions (points_of 0 (runs c.pixels)) ++ payload (runs c.pixels))
      ≡ expand (runs c.pixels)
  body =
      read_body-payload (runs c.pixels) _
        (omega (arith, width_bound (runs c.pixels) 0, total_pixels))
        (points_of-Fits (runs c.pixels) 0 (omega (arith, total_pixels)))
        (sizes-runs c.pixels (2 ^ 16 - 1) whole (omega (arith, full.sized)))

  -- Reading the message of a chunk gives its coordinates, its protection, the size of the pixel data
  -- and every byte of the pixels, for a chunk of 768 bytes and coordinates of 32 bits.
  pub read_message-compress :
      c.cx < 2 ^ 32
      → c.cy < 2 ^ 32
      → read_message (compress c).0
        ≡ some (record {
          cx = c.cx;
          cy = c.cy;
          ranked = bool_byte c.ranked;
          size = data_size;
          pixels = c.pixels;
        })
  unfolding compress read_message
  read_message-compress hx hy =
      rw (found.0, emitted, body, expand-runs c.pixels whole) (ground arith)

  -- The size that is returned is the number of bytes written, and both stay within the 782 bytes of
  -- the buffer, for a chunk of 768 bytes.
  pub size-compress :
      ((compress c).1 ≡ length (compress c).0) × ((compress c).1 ≤ 16 * 16 * 3 + 10 + 4)
  unfolding compress
  size-compress =
      rw (found.0, found.1, emitted)
        (
          omega (
            arith,
            length-append (positions (points_of 0 (runs c.pixels))) (payload (runs c.pixels)),
            length-payload (runs c.pixels),
            length-positions (points_of 0 (runs c.pixels)),
            width_bound (runs c.pixels) 0,
            total_pixels,
          ),
          omega (arith, width_bound (runs c.pixels) 0, total_pixels),
        )
