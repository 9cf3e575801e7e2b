-- ===== src/World/Cache.antt =====
-- The chunk cache of world.cpp: loading, saving, evicting and changing chunks.
pub mod Limits
pub mod Store
pub mod Head
use owop_server_for_heroku_g.Base.{
  ℕ, zero, suc, ◌+◌, ◌-◌, ◌*◌, ◌/◌, ◌%◌, ◌^◌, Bool, true, false, ◌&&◌, ◌||◌, Option, none, some,
  List, [], ◌∷◌, ◌++◌, ltb, ◌==◌, if◌then◌else◌, length,
}
use owop_server_for_heroku_g.Base.Words.{Bytes, le32, sar, slt}
use owop_server_for_heroku_g.Base.Eq.{bytes_eq}
use owop_server_for_heroku_g.Base.Assoc.{lookup, insert}
use owop_server_for_heroku_g.Chunk.{Chunk, Rgb, data_size, background, set_pixel, set_bytes, clear}
use owop_server_for_heroku_g.Chunk.Compress.{compress}
use owop_server_for_heroku_g.Database.{Database, set_chunk_protection, get_chunk_protection}
use owop_server_for_heroku_g.Database as Db
use owop_server_for_heroku_g.Database.Storage.{Disk}
use owop_server_for_heroku_g.Database.Handles.{Os, key, drop_last}
use owop_server_for_heroku_g.Database.Handles
use owop_server_for_heroku_g.Net.{Out, text, binary, prepared}
use owop_server_for_heroku_g.World.{World, Pixupd}

abbrev pub world_max_chunk_xy : ℕ
world_max_chunk_xy = 0xFFFFF

abbrev pub world_max_chunks_loaded : ℕ
world_max_chunks_loaded = 2048

-- `sched_updates`: start the timer unless it runs.
unfoldable pub sched_updates : World → World
sched_updates w = record w { upd_active = true }

-- The test at the head of `World::get_chunk`, of two `int32_t`. ~0xFFFFF is -0x100000.
pub out_of_world : ℕ → ℕ → Bool
out_of_world x y =
    slt world_max_chunk_xy x
    || slt world_max_chunk_xy y
    || slt x (2 ^ 32 - 0x100000)
    || slt y (2 ^ 32 - 0x100000)

-- The last chunk in the order of iteration, which is the one that is evicted.
pub last_chunk : List (Bytes × Chunk) → Option Chunk
last_chunk [] = none
last_chunk ((k, c) ∷ []) = some c
last_chunk (kc ∷ kd ∷ m) = last_chunk (kd ∷ m)

-- The chunk that is returned, and the new state.
pub record Found : Type 0 where
  pub chunk : Option Chunk
  pub world : World
  pub disk : Disk

-- `os` is the system; `junk` is what the memory of a new chunk holds before it is filled.
module _ (os : Os) (junk : Bytes) where
  -- The constructor of `Chunk`.
  unfoldable pub new_chunk : ℕ → ℕ → ℕ → Database → Disk → Chunk × Database × Disk
  new_chunk cx cy bgclr db disk =
      let ranked = get_chunk_protection db cx cy in
      let ((arr, found), db', disk') = Handles.get_chunk os cx cy junk db disk in
      (
        record {
          bgclr = bgclr;
          cx = cx;
          cy = cy;
          pixels = if found then arr else background bgclr;
          changed = false;
          ranked = ranked;
        },
        db',
        disk',
      )

  -- `Chunk::save`, which the destructor calls too.
  unfoldable pub save_chunk : Chunk → Database → Disk → Chunk × Database × Disk
  save_chunk c db disk =
      if c.changed
      then (let (db', disk') = Handles.set_chunk os c.cx c.cy c.pixels db disk in
          (record c { changed = false }, db', disk'))
      else (c, db, disk)

  -- `delete it->second; chunks.erase(it)`, if too many chunks are loaded.
  pub evict : World → Disk → World × Disk
  evict w disk =
      if ltb world_max_chunks_loaded (length w.chunks)
      then elim (last_chunk w.chunks) [
        | none ↦ (w, disk)
        | some c ↦
            let (_, db', disk') = save_chunk c w.db disk in
            (record w { chunks = drop_last w.chunks; db = db' }, disk')
      ]
      else (w, disk)

  load : ℕ → ℕ → World → Disk → Found
  load x y w disk =
      let (w', disk') = evict w disk in
      let (c, db'', disk'') = new_chunk x y w'.bgclr w'.db disk' in
      record {
        chunk = some c;
        world = record w' { chunks = insert (key x y) c w'.chunks; db = db'' };
        disk = disk'';
      }

  -- `World::get_chunk`.
  unfoldable pub get_chunk : ℕ → ℕ → World → Disk → Found
  unfolding load
  get_chunk x y w disk =
      if out_of_world x y
      then record { chunk = none; world = w; disk = disk }
      else elim (lookup (key x y) w.chunks) [
        | none ↦ load x y w disk
        | some c ↦ record { chunk = some c; world = w; disk = disk }
      ]
