-- ===== src/World/Cache/Limits.antt =====
-- Which chunks a world has, and how many of them are in memory.
use owop_server_for_heroku_g.Base.{
  ℕ, ◌≡◌, refl, ◌+◌, ◌%◌, ◌^◌, ◌<◌, ◌≤◌, ◌↔◌, false, none, List, [], ◌∷◌, ltb, arith, length,
  Bool-cases, Option-cases, inl, inr,
}
use owop_server_for_heroku_g.Base.Words.{Bytes}
use owop_server_for_heroku_g.Base.Eq.{bytes_eq}
use owop_server_for_heroku_g.Base.Assoc.{lookup, length-insert_le}
use owop_server_for_heroku_g.Chunk.{Chunk}
use owop_server_for_heroku_g.Database.Storage.{Disk}
use owop_server_for_heroku_g.Database.Handles.{Os, key}
use owop_server_for_heroku_g.Database.Handles.Bounds.{length-drop_last}
use owop_server_for_heroku_g.World.{World}
use owop_server_for_heroku_g.World.Cache.{
  out_of_world, last_chunk, new_chunk, evict, load, get_chunk,
}

-- An `int32_t` whose value lies between -2 ^ 20 and 2 ^ 20 - 1.
abbrev pub IsInside : ℕ → Type 0
IsInside x = (x + 2 ^ 20) % 2 ^ 32 < 2 ^ 21

-- The test of `get_chunk` lets exactly the chunks through whose coordinates both lie between -2 ^ 20
-- and 2 ^ 20 - 1, of all 32-bit coordinates.
pub out_of_world_lem :
    (x y : ℕ) → x < 2 ^ 32 → y < 2 ^ 32 → (out_of_world x y ≡ false) ↔ (IsInside x × IsInside y)
unfolding out_of_world
out_of_world_lem x y hx hy = (λ h. ground arith, λ h. ground arith)

-- The chunks in memory between two operations: one more than WORLD_MAX_CHUNKS_LOADED, because the
-- test is for more than that many and comes before the new one.
abbrev pub IsLimited : World → Type 0
IsLimited w = length w.chunks ≤ 2049

last_chunk-none : (m : List (Bytes × Chunk)) → last_chunk m ≡ none → length m ≡ 0
unfolding last_chunk
last_chunk-none [] h = refl
last_chunk-none ((k, c) ∷ []) h = absurd (ground arith)
last_chunk-none ((k, c) ∷ kd ∷ m) h = absurd (omega (arith, last_chunk-none (kd ∷ m) h))

module _ (os : Os) (junk : Bytes) where
  length-evict :
      (w : World) (disk : Disk) → IsLimited w → length (evict os junk w disk).0.chunks ≤ 2048
  unfolding evict
  length-evict w disk h = elim (Bool-cases (ltb 2048 (length w.chunks))) [
    | inl many ↦ elim (Option-cases (last_chunk w.chunks)) [
      | inl e ↦ rw (many, e, evict) (omega (arith, last_chunk-none w.chunks e))
      | inr (c, e) ↦ rw (many, e, evict) (omega (arith, length-drop_last w.chunks))
    ]
    | inr few ↦ rw (few, evict) (ground arith)
  ]

  -- Getting a chunk never leaves more than 2049 of them in memory.
  pub get_chunk-IsLimited :
      (x y : ℕ) (w : World) (disk : Disk)
      → IsLimited w
      → IsLimited (get_chunk os junk x y w disk).world
  unfolding get_chunk load
  get_chunk-IsLimited x y w disk h = elim (Bool-cases (out_of_world x y)) [
    | inl far ↦ rw (far, get_chunk) h
    | inr near ↦ elim (Option-cases (lookup (key x y) w.chunks)) [
      | inl missing ↦
          rw (near, missing, get_chunk)
            (let w' = (evict os junk w disk).0 in
              let c = (new_chunk os junk x y w'.bgclr w'.db (evict os junk w disk).1).0 in
              omega (arith, length-insert_le (key x y) c w'.chunks, length-evict w disk h))
      | inr (c, there) ↦ rw (near, there, get_chunk) h
    ]
  ]
