-- ===== src/Database/Region.antt =====
-- A region file of database.cpp: the streams' reads and writes at a position, and what
-- `Database::get_chunk` and `Database::set_chunk` do once they have a stream. A region holds 32 by 32
-- chunks: 1024 entries of three bytes, then blocks of 768 bytes.
pub mod Slices
pub mod Entries
pub mod Laws
pub mod Picture
use owop_server_for_heroku_g.Base.{
  ℕ, zero, suc, ◌+◌, ◌-◌, ◌*◌, ◌/◌, ◌%◌, ◌^◌, Bool, true, false, ◌||◌, ◌&&◌, [], ◌∷◌, ◌++◌, ltb,
  ◌==◌, if◌then◌else◌, get_or, take, drop, replicate, length,
}
use owop_server_for_heroku_g.Base.Words.{Bytes}

-- seekg(q), read(_, n): what can be read. A short read leaves the stream bad.
abbrev pub slice : Bytes → ℕ → ℕ → Bytes
slice s q n = take n (drop q s)

pub overwrite : Bytes → Bytes → Bytes
overwrite s [] = s
overwrite [] (b ∷ bs) = b ∷ bs
overwrite (x ∷ s) (b ∷ bs) = b ∷ overwrite s bs

-- seekp(p), write(bs). Behind the end of the file a gap is filled with zeros.
pub write_at : ℕ → Bytes → Bytes → Bytes
unfolding overwrite
write_at zero s bs = overwrite s bs
write_at (suc p) [] bs = 0 ∷ write_at p [] bs
write_at (suc p) (x ∷ s) bs = x ∷ write_at p s bs

-- A new region file: `uint8_t zero[3072]`.
pub empty_region : Bytes
empty_region = replicate 3072 0

-- 3 * ((x & 31) + (y & 31) * 32)
abbrev pub lookup_pos : ℕ → ℕ → ℕ
lookup_pos x y = 3 * (x % 32 + y % 32 * 32)

-- What the three bytes read to ((char *)&chunkpos) + 1 make of chunkpos, which was 0.
abbrev pub chunk_pos : Bytes → ℕ
chunk_pos l = get_or l 0 0 * 2 ^ 8 + get_or l 1 0 * 2 ^ 16 + get_or l 2 0 * 2 ^ 24

-- The three bytes at ((char *)&size) + 1.
abbrev pub size_bytes : ℕ → Bytes
size_bytes size = (size / 2 ^ 8 % 256) ∷ (size / 2 ^ 16 % 256) ∷ (size / 2 ^ 24 % 256) ∷ []

-- size - chunkpos, as a `size_t`.
abbrev pub sub64 : ℕ → ℕ → ℕ
sub64 a b = (a + 2 ^ 64 - b % 2 ^ 64) % 2 ^ 64

pub record Reading : Type 0 where
  pub arr : Bytes
  pub found : Bool
  pub good : Bool

-- The rest of `get_chunk` once chunkpos is read.
pub region_read : Bytes → ℕ → Bool → Bytes → Reading
region_read s chunkpos good arr =
    if chunkpos == 0 || ltb (length s) 3072 || ltb (sub64 (length s) chunkpos) 768
    then record { arr = arr; found = false; good = good }
    else (let read = slice s chunkpos 768 in
        record {
          arr = read ++ drop (length read) arr;
          found = true;
          good = good && length read == 768;
        })

-- `get_chunk` from a good stream over the file `s`. `arr` is the caller's buffer.
unfoldable pub region_get : Bytes → ℕ → ℕ → Bytes → Reading
region_get s x y arr =
    let entry = slice s (lookup_pos x y) 3 in
    region_read s (chunk_pos entry) (length entry == 3) arr

-- The rest of `set_chunk` once chunkpos is read, which is a `uint32_t`.
pub region_write : Bytes → ℕ → ℕ → Bytes → Bytes
region_write s lookup chunkpos arr =
    if chunkpos == 0
    then write_at (length s % 2 ^ 32) (write_at lookup s (size_bytes (length s))) arr
    else write_at chunkpos s arr

-- `set_chunk` to a good stream: the new file, and whether the stream is still good. A stream that
-- could not read the entry writes nothing.
unfoldable pub region_set : Bytes → ℕ → ℕ → Bytes → Bytes × Bool
region_set s x y arr =
    let entry = slice s (lookup_pos x y) 3 in
    if ltb (length entry) 3
    then (s, false)
    else (region_write s (lookup_pos x y) (chunk_pos entry) arr, true)
