-- ===== src/Chunk.antt =====
-- The `Chunk` class of world.cpp without its database: 16 by 16 pixels of three bytes each.
pub mod Compress
pub mod Pixels
mod Tests
use owop_server_for_heroku_g.Base.{
  ℕ, suc, zero, ◌≡◌, ◌+◌, ◌*◌, ◌/◌, ◌%◌, ◌^◌, Bool, true, false, ◌&&◌, List, [], ◌∷◌, ◌==◌,
  if◌then◌else◌, get_or, set, take, drop, length, ◌++◌, All,
}
use owop_server_for_heroku_g.Base.Words.{Bytes, IsByte}

pub record Rgb : Type 0 where
  pub r : ℕ
  pub g : ℕ
  pub b : ℕ

-- sizeof(data)
abbrev pub data_size : ℕ
data_size = 16 * 16 * 3

pub record Chunk : Type 0 where
  pub bgclr : ℕ
  pub cx : ℕ
  pub cy : ℕ
  pub pixels : Bytes
  pub changed : Bool
  pub ranked : Bool

-- The pixel data are 768 bytes.
pub record IsFull (c : Chunk) : Type 0 where
  pub sized : length c.pixels ≡ data_size
  pub bytes : All IsByte c.pixels

-- (uint8_t) (bgclr >> ((i % 3) * 8)), for `n` indices from `i` on.
pub fill : ℕ → ℕ → ℕ → Bytes
fill bgclr zero i = []
fill bgclr (suc n) i = (bgclr / 2 ^ (i % 3 * 8) % 256) ∷ fill bgclr n (i + 1)

unfoldable pub background : ℕ → Bytes
unfolding fill
background bgclr = fill bgclr data_size 0

-- The test of `set_data`, at the first byte of a pixel.
abbrev pub has_color : Bytes → ℕ → Rgb → Bool
has_color s pos clr =
    get_or s pos 0 == clr.r && get_or s (pos + 1) 0 == clr.g && get_or s (pos + 2) 0 == clr.b

-- `Chunk::set_data` of one pixel.
unfoldable pub set_pixel : Chunk → ℕ → ℕ → Rgb → Chunk × Bool
set_pixel c x y clr =
    let pos = (y * 16 + x) * 3 in
    if has_color c.pixels pos clr then (c, false) else (
      record c {
        pixels = set (set (set c.pixels pos clr.r) (pos + 1) clr.g) (pos + 2) clr.b;
        changed = true;
      },
      true,
    )

-- `Chunk::set_data` of the bytes that a client pastes: memcpy of `size` bytes.
unfoldable pub set_bytes : Chunk → Bytes → ℕ → Chunk
set_bytes c newdata size = record c {
  pixels = take size newdata ++ drop size c.pixels;
  changed = true;
}

unfoldable pub clear : Chunk → Chunk
clear c = record c { pixels = background c.bgclr; changed = true }
