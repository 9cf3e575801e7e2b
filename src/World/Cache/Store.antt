-- ===== src/World/Cache/Store.antt =====
-- What getting a chunk changes of a world: its chunks and its database, which keeps its limits.
use owop_server_for_heroku_g.Base.{
  ℕ, ◌≡◌, refl, sym, ap, subst, List, ltb, length, Bool-cases, Option-cases, inl, inr,
}
use owop_server_for_heroku_g.Base.Words.{Bytes}
use owop_server_for_heroku_g.Base.Eq.{bytes_eq}
use owop_server_for_heroku_g.Base.Assoc.{lookup, insert}
use owop_server_for_heroku_g.Chunk.{Chunk}
use owop_server_for_heroku_g.Database.{Database}
use owop_server_for_heroku_g.Database.Storage.{Disk}
use owop_server_for_heroku_g.Database.Handles.{Os, key, drop_last}
use owop_server_for_heroku_g.Database.Handles.Bounds.{
  IsBounded, get_chunk-IsBounded, set_chunk-IsBounded,
}
use owop_server_for_heroku_g.World.{World}
use owop_server_for_heroku_g.World.Cache.{
  out_of_world, last_chunk, new_chunk, save_chunk, evict, load, get_chunk,
}

-- The same world but for its chunks and its database.
abbrev pub with_store : World → List (Bytes × Chunk) → Database → World
with_store w m db = record w { chunks = m; db = db }

module _ (os : Os) (junk : Bytes) where
  pub save_chunk-IsBounded :
      (c : Chunk) (db : Database) (disk : Disk)
      → IsBounded db
      → IsBounded (save_chunk os junk c db disk).1
  unfolding save_chunk
  save_chunk-IsBounded c db disk v = elim (Bool-cases c.changed) [
    | inl changed ↦ rw (changed, save_chunk) (set_chunk-IsBounded os c.cx c.cy c.pixels db disk v)
    | inr same ↦ rw (same, save_chunk) v
  ]

  new_chunk-IsBounded :
      (cx cy bgclr : ℕ) (db : Database) (disk : Disk)
      → IsBounded db
      → IsBounded (new_chunk os junk cx cy bgclr db disk).1
  unfolding new_chunk
  new_chunk-IsBounded cx cy bgclr db disk v = get_chunk-IsBounded os cx cy junk db disk v

  evict-store :
      (w : World) (disk : Disk)
      → IsBounded w.db
      → (m : List (Bytes × Chunk)) × (db : Database) × ((evict os junk w disk).0
          ≡ with_store w m db)
        × IsBounded db
  unfolding evict
  evict-store w disk v = elim (Bool-cases (ltb 2048 (length w.chunks))) [
    | inl many ↦ elim (Option-cases (last_chunk w.chunks)) [
      | inl e ↦ (w.chunks, w.db, rw (many, e, evict) refl, v)
      | inr (c, e) ↦ (
        drop_last w.chunks,
        (save_chunk os junk c w.db disk).1,
        rw (many, e, evict) refl,
        save_chunk-IsBounded c w.db disk v,
      )
    ]
    | inr few ↦ (w.chunks, w.db, rw (few, evict) refl, v)
  ]

  load-store :
      (x y : ℕ) (w : World) (disk : Disk)
      → IsBounded w.db
      → (m : List (Bytes × Chunk)) × (db : Database) × ((load os junk x y w disk).world
          ≡ with_store w m db)
        × IsBounded db
  unfolding load
  load-store x y w disk v =
      let w' = (evict os junk w disk).0 in
      let disk' = (evict os junk w disk).1 in
      let (m, db, e, bounded) = evict-store w disk v in
      let bounded' : IsBounded w'.db = subst (λ u. IsBounded u.db) (sym e) bounded in
      let made = new_chunk os junk x y w'.bgclr w'.db disk' in
      (
        insert (key x y) made.0 w'.chunks,
        made.1,
        ap (λ u. with_store u (insert (key x y) made.0 w'.chunks) made.1) e,
        new_chunk-IsBounded x y w'.bgclr w'.db disk' bounded',
      )

  -- Getting a chunk changes nothing of a world but its chunks and its database.
  pub get_chunk-store :
      (x y : ℕ) (w : World) (disk : Disk)
      → IsBounded w.db
      → (m : List (Bytes × Chunk)) × (db : Database) × ((get_chunk os junk x y w disk).world
          ≡ with_store w m db)
        × IsBounded db
  unfolding get_chunk
  get_chunk-store x y w disk v = elim (Bool-cases (out_of_world x y)) [
    | inl far ↦ (w.chunks, w.db, rw (far, get_chunk) refl, v)
    | inr near ↦ elim (Option-cases (lookup (key x y) w.chunks)) [
      | inl missing ↦ rw (near, missing, get_chunk) (load-store x y w disk v)
      | inr (c, there) ↦ (w.chunks, w.db, rw (near, there, get_chunk) refl, v)
    ]
  ]
