-- ===== src/Chunk/Tests.antt =====
-- Runs of the chunk operations.
use owop_server_for_heroku_g.Base.{
  ℕ, ◌+◌, ◌*◌, ◌^◌, ◌<◌, ◌≤◌, ◌≡◌, true, false, some, [], arith, length,
}
use owop_server_for_heroku_g.Chunk.{Chunk, Rgb, IsFull, data_size, set_pixel, clear}
use owop_server_for_heroku_g.Chunk.Pixels.{
  pixel_at, pixel_at-set_pixel, clear-IsFull, set_pixel-IsFull,
}
use owop_server_for_heroku_g.Chunk.Compress.{compress, bool_byte}
use owop_server_for_heroku_g.Chunk.Compress.Decode.{read_message}
use owop_server_for_heroku_g.Chunk.Compress.RoundTrip.{read_message-compress, size-compress}

abbrev raw : Chunk
raw = record {
  bgclr = 0xFFFFFF;
  cx = 3;
  cy = 0xFFFF_FFFF;
  pixels = [];
  changed = false;
  ranked = true;
}

abbrev red : Rgb
red = record { r = 255; g = 0; b = 0 }

-- A white chunk with one red pixel.
abbrev dotted : Chunk
dotted = (set_pixel (clear raw) 5 7 red).0

dotted-IsFull : IsFull dotted
dotted-IsFull =
    set_pixel-IsFull (clear raw) 5 7 red
      (record { r = omega arith; g = omega arith; b = omega arith }) (clear-IsFull raw)

pixel_at-set_pixel_example :
    pixel_at (set_pixel (clear raw) 5 7 red).0 5 8 ≡ pixel_at (clear raw) 5 8
pixel_at-set_pixel_example =
    pixel_at-set_pixel (clear raw) 5 7 5 8 red (clear-IsFull raw) (omega arith) (omega arith)
      (omega arith) (omega arith)

cx-set_pixel : (c : Chunk) (x y : ℕ) (clr : Rgb) → (set_pixel c x y clr).0.cx ≡ c.cx
unfolding set_pixel
cx-set_pixel c x y clr = ground arith

cy-set_pixel : (c : Chunk) (x y : ℕ) (clr : Rgb) → (set_pixel c x y clr).0.cy ≡ c.cy
unfolding set_pixel
cy-set_pixel c x y clr = ground arith

dotted_cx : dotted.cx < 2 ^ 32
unfolding clear
dotted_cx = omega (arith, cx-set_pixel (clear raw) 5 7 red)

dotted_cy : dotted.cy < 2 ^ 32
unfolding clear
dotted_cy = omega (arith, cy-set_pixel (clear raw) 5 7 red)

read_message-compress_example :
    read_message (compress dotted).0
    ≡ some (record {
      cx = dotted.cx;
      cy = dotted.cy;
      ranked = bool_byte dotted.ranked;
      size = data_size;
      pixels = dotted.pixels;
    })
read_message-compress_example = read_message-compress dotted dotted-IsFull dotted_cx dotted_cy

size-compress_example :
    ((compress dotted).1 ≡ length (compress dotted).0)
    × ((compress dotted).1 ≤ 16 * 16 * 3 + 10 + 4)
size-compress_example = size-compress dotted dotted-IsFull
