-- ===== src/World/Edit/Laws.antt =====
-- What a pixel that is put does to the world, and to no more of it.
use owop_server_for_heroku_g.Base.{
  ℕ, ◌≡◌, ◌≢◌, refl, ap, sym, ◌∙◌, ◌%◌, ◌^◌, ◌<◌, Bool, true, false, ◌&&◌, Option, none, some, [],
  ◌∷◌, ◌++◌, if◌then◌else◌, ◌==◌, arith, Bool-cases, inl, inr,
}
use owop_server_for_heroku_g.Base.Words.{Bytes, sar}
use owop_server_for_heroku_g.Base.Eq.{bytes_eq, eq_bytes, eq_bytes_iff}
use owop_server_for_heroku_g.Base.Assoc.{lookup, assign, lookup-assign}
use owop_server_for_heroku_g.Chunk.{Chunk, Rgb, IsFull, set_pixel}
use owop_server_for_heroku_g.Chunk.Pixels.{pixel_at, pixel_at-set_pixel, set_pixel-changed}
use owop_server_for_heroku_g.Database.Storage.{Disk}
use owop_server_for_heroku_g.Database.Handles.{Os, key}
use owop_server_for_heroku_g.World.{World}
use owop_server_for_heroku_g.World.Cache.{out_of_world, get_chunk, sched_updates}
use owop_server_for_heroku_g.World.Edit.{Did, put_back, put_in_chunk, put_px}
use owop_server_for_heroku_g.World.Edit.Places.{
  sar-word, key-injective, some-injective, same_place, other_place, choose,
}

-- The colour of a pixel of the world that is in memory; none for the others.
abbrev pub color_in : World → ℕ → ℕ → Option Rgb
color_in w x y = elim (lookup (key (sar x 4) (sar y 4)) w.chunks) [
  | none ↦ none
  | some c ↦ some (pixel_at c (x % 16) (y % 16))
]

get_chunk-there :
    (os : Os) (junk : Bytes) (x y : ℕ) (w : World) (disk : Disk) (c : Chunk)
    → out_of_world x y ≡ false
    → lookup (key x y) w.chunks ≡ some c
    → get_chunk os junk x y w disk ≡ record { chunk = some c; world = w; disk = disk }
unfolding get_chunk
get_chunk-there os junk x y w disk c near there = rw (near, there, get_chunk) refl

module _ (os : Os) (junk : Bytes) (x y : ℕ) (clr : Rgb) (w : World) (disk : Disk) (c : Chunk)
    (near : out_of_world (sar x 4) (sar y 4) ≡ false)
    (there : lookup (key (sar x 4) (sar y 4)) w.chunks ≡ some c) where
  abbrev after : Did
  after = put_px os junk x y clr w disk

  abbrev result : Chunk × Bool
  result = set_pixel c (x % 16) (y % 16) clr

  after-put_in_chunk :
      after ≡ put_in_chunk os junk x y clr (record { chunk = some c; world = w; disk = disk })
  unfolding put_px
  after-put_in_chunk =
      ap (put_in_chunk os junk x y clr)
        (get_chunk-there os junk (sar x 4) (sar y 4) w disk c near there)

  put_px-same :
      result.1 ≡ false → after ≡ record { world = w; disk = disk; sent = []; changed = false }
  unfolding put_in_chunk
  put_px-same h = after-put_in_chunk ∙ rw (h, put_in_chunk) refl

  put_px-changed :
      result.1 ≡ true
      → after ≡ record {
        world = record w {
          chunks = assign (key (sar x 4) (sar y 4)) result.0 w.chunks;
          pxupdates = w.pxupdates ++ record { x = x; y = y; r = clr.r; g = clr.g; b = clr.b } ∷ [];
          upd_active = true;
        };
        disk = disk;
        sent = [];
        changed = true;
      }
  unfolding put_in_chunk put_back sched_updates
  put_px-changed h = after-put_in_chunk ∙ rw (h, put_in_chunk, put_back, sched_updates) refl

  lookup-put_px :
      (k : Bytes)
      → lookup k after.world.chunks
        ≡ (if eq_bytes (key (sar x 4) (sar y 4)) k then some result.0 else lookup k w.chunks)
  lookup-put_px k = elim (Bool-cases result.1) [
    | inl changed ↦
        ap (λ d. lookup k d.world.chunks) (put_px-changed changed)
        ∙ lookup-assign (key (sar x 4) (sar y 4)) k result.0 c w.chunks there
    | inr same ↦
        ap (λ d. lookup k d.world.chunks) (put_px-same same)
        ∙ elim (Bool-cases (eq_bytes (key (sar x 4) (sar y 4)) k)) [
          | inl here ↦
              let e : key (sar x 4) (sar y 4) ≡ k =
                (eq_bytes_iff (key (sar x 4) (sar y 4)) k).0 here in
              rw here (
                ap (λ l. lookup l w.chunks) (sym e)
                ∙ there
                ∙ ap some (sym ((set_pixel-changed c (x % 16) (y % 16) clr).1 same).1))
          | inr elsewhere ↦ rw elsewhere refl
        ]
  ]

  color_in-here :
      (i j : ℕ) (d : Chunk) (v : World)
      → lookup (key (sar i 4) (sar j 4)) v.chunks ≡ some d
      → color_in v i j ≡ some (pixel_at d (i % 16) (j % 16))
  color_in-here i j d v h = rw (h, color_in) refl

  color_in-elsewhere :
      (i j : ℕ) (v u : World)
      → lookup (key (sar i 4) (sar j 4)) v.chunks ≡ lookup (key (sar i 4) (sar j 4)) u.chunks
      → color_in v i j ≡ color_in u i j
  color_in-elsewhere i j v u h = rw (h, color_in) refl

  -- Putting a pixel into a chunk in memory, of 768 bytes and within the world, gives that pixel of
  -- the world the colour, and leaves every other pixel in memory, of this chunk and of all others,
  -- as it was. All coordinates are 32-bit words.
  pub color_in-put_px :
      (i j : ℕ)
      → IsFull c
      → x < 2 ^ 32
      → y < 2 ^ 32
      → i < 2 ^ 32
      → j < 2 ^ 32
      → color_in (put_px os junk x y clr w disk).world i j
        ≡ (if x == i && y == j then some clr else color_in w i j)
  color_in-put_px i j full hx hy hi hj =
      let here = key (sar x 4) (sar y 4) in
      let k = key (sar i 4) (sar j 4) in
      elim (Bool-cases (eq_bytes here k)) [
        | inl same ↦
            let e : here ≡ k = (eq_bytes_iff here k).0 same in
            let (ex, ey) =
              key-injective (sar x 4) (sar y 4) (sar i 4) (sar j 4) (sar-word x hx) (sar-word y hy)
                (sar-word i hi) (sar-word j hj) e in
            let old : color_in w i j ≡ some (pixel_at c (i % 16) (j % 16)) =
              color_in-here i j c w (ap (λ l. lookup l w.chunks) (sym e) ∙ there) in
            let new : color_in after.world i j ≡ some (pixel_at result.0 (i % 16) (j % 16)) =
              color_in-here i j result.0 after.world (lookup-put_px k ∙ rw same refl) in
            let px =
              pixel_at-set_pixel c (x % 16) (y % 16) (i % 16) (j % 16) clr full (omega arith)
                (omega arith) (omega arith) (omega arith) in
            new
            ∙ ap some px
            ∙ choose (x % 16 == i % 16 && y % 16 == j % 16) clr (pixel_at c (i % 16) (j % 16))
                (color_in w i j) old
            ∙ ap (λ b. if b then some clr else color_in w i j)
                (sym (same_place x i y j hx hy hi hj ex ey))
        | inr other ↦
            color_in-elsewhere i j after.world w (lookup-put_px k ∙ rw other refl)
            ∙ ap (λ b. if b then some clr else color_in w i j) (sym (other_place x i y j other))
      ]

  -- For a chunk in memory and within the world: a pixel that has the colour already changes
  -- neither world nor disk and reports false. Otherwise true is reported, the pixel waits behind
  -- those already pending, and the timer runs. Nothing is sent at once either way.
  pub put_px-pending :
      (color_in w x y ≡ some clr
        → put_px os junk x y clr w disk
          ≡ record { world = w; disk = disk; sent = []; changed = false })
      × (color_in w x y ≢ some clr
          → ((put_px os junk x y clr w disk).world.pxupdates
              ≡ w.pxupdates ++ record { x = x; y = y; r = clr.r; g = clr.g; b = clr.b } ∷ [])
            × ((put_px os junk x y clr w disk).world.upd_active ≡ true)
            × ((put_px os junk x y clr w disk).sent ≡ [])
            × ((put_px os junk x y clr w disk).changed ≡ true))
  put_px-pending =
      let old : color_in w x y ≡ some (pixel_at c (x % 16) (y % 16)) =
        color_in-here x y c w there in
      let facts = set_pixel-changed c (x % 16) (y % 16) clr in
      elim (Bool-cases result.1) [
        | inl changed ↦
            let e = put_px-changed changed in
            (
              λ h. absurd ((facts.0 changed).0 (some-injective (sym old ∙ h))),
              λ h. (
                ap (λ d. d.world.pxupdates) e,
                ap (λ d. d.world.upd_active) e,
                ap (λ d. d.sent) e,
                ap (λ d. d.changed) e,
              ),
            )
        | inr same ↦ (λ h. put_px-same same, λ h. absurd (h (old ∙ ap some (facts.1 same).0)))
      ]
