-- ===== src/Chunk/Compress.antt =====
-- `Chunk::compress_data_to` of world.cpp. The `uint16_t` counters wrap as they do there.
pub mod Runs
pub mod Emit
pub mod Decode
pub mod RoundTrip
use owop_server_for_heroku_g.Base.{
  ℕ, ◌+◌, ◌-◌, ◌*◌, ◌^◌, Bool, true, false, List, [], ◌∷◌, ◌++◌, ltb, leb, ◌==◌, if◌then◌else◌,
  take, drop, length,
}
use owop_server_for_heroku_g.Base.Words.{Bytes, le16, le32, add16, sub16}
use owop_server_for_heroku_g.Chunk.{Chunk, data_size}

-- Where in the compressed bytes a run stands, and how many pixels it has.
pub record Point : Type 0 where
  pub pos : ℕ
  pub size : ℕ

-- data[i + 2] << 16 | data[i + 1] << 8 | data[i]
abbrev pub color : ℕ → ℕ → ℕ → ℕ
color a b c = c * 2 ^ 16 + b * 2 ^ 8 + a

-- The variables of the first loop.
pub record Scan : Type 0 where
  pub comp_bytes : ℕ
  pub last : ℕ
  pub t : ℕ
  pub points : List Point

-- The body of the first loop, at a pixel with the colour `clr`.
pub scan_pixel : Scan → ℕ → Scan
scan_pixel s clr =
    let cb = add16 s.comp_bytes 3 in
    if clr == s.last
    then record s { comp_bytes = cb; t = add16 s.t 1 }
    else if leb 3 s.t
    then (let at = sub16 cb (s.t * 3 + 3) in
        record {
          comp_bytes = add16 at 8;
          last = clr;
          t = 1;
          points = s.points ++ record { pos = at; size = s.t } ∷ [];
        })
    else record s { comp_bytes = cb; last = clr; t = 1 }

-- The first loop: i goes on by 3 to the end of the data.
pub scan_loop : Scan → Bytes → Scan
scan_loop s (a ∷ b ∷ c ∷ rest) = scan_loop (scan_pixel s (color a b c)) rest
scan_loop s rest = s

-- The block behind it, for the last run.
pub scan_end : Scan → Scan
scan_end s =
    if leb 3 s.t
    then (let at = sub16 s.comp_bytes (s.t * 3) in
        record s {
          comp_bytes = add16 at 5;
          points = s.points ++ record { pos = at; size = s.t } ∷ [];
        })
    else s

pub scan : Bytes → Scan
unfolding scan_loop scan_pixel scan_end
scan (a ∷ b ∷ c ∷ rest) =
    scan_end (scan_loop (record { comp_bytes = 3; last = color a b c; t = 1; points = [] }) rest)
scan rest = record { comp_bytes = 3; last = 0; t = 1; points = [] }

-- The positions of the runs, as the third loop writes them.
pub positions : List Point → Bytes
positions [] = []
positions (p ∷ ps) = le16 p.pos ++ positions ps

-- `while (ci < point.pos) curr[ci++] = data[di++]`: the bytes copied, ci, and the data left.
pub copy_until : ℕ → ℕ → Bytes → Bytes × ℕ × Bytes
copy_until ci pos [] = ([], ci, [])
copy_until ci pos (d ∷ ds) =
    let rest = copy_until (ci + 1) pos ds in
    if ltb ci pos then (d ∷ rest.0, rest.1, rest.2) else ([], ci, d ∷ ds)

-- The fourth loop and the copy of what is left: `ds` are the data from di on.
pub emit : List Point → ℕ → Bytes → Bytes
unfolding copy_until
emit [] ci ds = ds
emit (p ∷ ps) ci ds =
    let (out, ci', rest) = copy_until ci p.pos ds in
    out
    ++ (le16 p.size ++ (take 3 rest ++ emit ps (ci' + 2 + 3) (drop (p.size * 3 - 3) (drop 3 rest))))

pub bool_byte : Bool → ℕ
bool_byte true = 1
bool_byte false = 0

-- The bytes written to `msg` and the size returned. CHUNKDATA is 2.
pub compress : Chunk → Bytes × ℕ
unfolding scan positions emit bool_byte
compress c =
    let s = scan c.pixels in
    let careas = length s.points in
    (
      2
          ∷ (le32 c.cx
              ++ le32 c.cy
              ++ bool_byte c.ranked
                ∷ (le16 data_size
                    ++ le16 careas
                    ++ positions s.points
                    ++ emit s.points 0 c.pixels)),
      s.comp_bytes + careas * 2 + 10 + 2 + 2,
    )
