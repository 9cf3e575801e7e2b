-- ===== src/World/Edit.antt =====
-- What clients do to the chunks of a world, in world.cpp. Each operation returns the new world and
-- disk, and what is sent.
pub mod Places
pub mod Laws
pub mod Head
use owop_server_for_heroku_g.Base.{
  ℕ, ◌+◌, ◌*◌, ◌/◌, ◌%◌, ◌^◌, Bool, true, false, Option, none, some, List, [], ◌∷◌, ◌++◌,
  if◌then◌else◌, map,
}
use owop_server_for_heroku_g.Base.Words.{Bytes, le32, sar}
use owop_server_for_heroku_g.Base.Eq.{bytes_eq}
use owop_server_for_heroku_g.Base.Assoc.{assign}
use owop_server_for_heroku_g.Chunk.{Chunk, Rgb, data_size, set_pixel, set_bytes, clear}
use owop_server_for_heroku_g.Chunk.Compress.{compress}
use owop_server_for_heroku_g.Database.{Database, set_chunk_protection}
use owop_server_for_heroku_g.Database
use owop_server_for_heroku_g.Database.Storage.{Disk}
use owop_server_for_heroku_g.Database.Handles.{Os, key}
use owop_server_for_heroku_g.Net.{Out, binary, prepared}
use owop_server_for_heroku_g.World.{World, Pixupd}
use owop_server_for_heroku_g.World.Cache.{Found, get_chunk, save_chunk, sched_updates}

-- The chunk object in the cache after a change to it.
unfoldable pub put_back : ℕ → ℕ → Chunk → World → World
put_back x y c w = record w { chunks = assign (key x y) c w.chunks }

-- `Chunk::send_data` and `Chunk::get_prepd_data_msg`: the bytes of the message, as many as
-- `compress_data_to` returns.
unfoldable pub chunk_message : Chunk → Bytes
chunk_message c = (compress c).0

-- The new world and disk, what is sent, and a result.
pub record Did : Type 0 where
  pub world : World
  pub disk : Disk
  pub sent : List Out
  pub changed : Bool

module _ (os : Os) (junk : Bytes) where
  -- `World::send_chunk`, to one socket.
  unfoldable pub send_chunk : ℕ → ℕ → ℕ → World → Disk → Did
  send_chunk ws x y w disk =
      let f = get_chunk os junk x y w disk in
      record {
        world = f.world;
        disk = f.disk;
        sent = elim f.chunk [ none ↦ [] | some c ↦ binary ws (chunk_message c) ∷ [] ];
        changed = false;
      }

  -- `World::del_chunk`.
  unfoldable pub del_chunk : ℕ → ℕ → World → Disk → Did
  del_chunk x y w disk =
      let f = get_chunk os junk x y w disk in
      elim f.chunk [
        | none ↦ record { world = f.world; disk = f.disk; sent = []; changed = false }
        | some c ↦ record {
          world = put_back x y (clear c) f.world;
          disk = f.disk;
          sent = prepared binary (chunk_message (clear c)) f.world.clients;
          changed = true;
        }
      ]

  -- `World::paste_chunk`, of the bytes behind the coordinates in the client's message.
  unfoldable pub paste_chunk : ℕ → ℕ → Bytes → World → Disk → Did
  paste_chunk x y newdata w disk =
      let f = get_chunk os junk x y w disk in
      elim f.chunk [
        | none ↦ record { world = f.world; disk = f.disk; sent = []; changed = false }
        | some c ↦
            let c' = set_bytes c newdata data_size in
            record {
              world = put_back x y c' f.world;
              disk = f.disk;
              sent = prepared binary (chunk_message c') f.world.clients;
              changed = true;
            }
      ]

  -- The part of `World::put_px` behind `get_chunk`: x and y are those of the pixel.
  unfoldable pub put_in_chunk : ℕ → ℕ → Rgb → Found → Did
  put_in_chunk x y clr f = elim f.chunk [
    | none ↦ record { world = f.world; disk = f.disk; sent = []; changed = false }
    | some c ↦
        let (c', changed) = set_pixel c (x % 16) (y % 16) clr in
        if changed
        then (let w = put_back (sar x 4) (sar y 4) c' f.world in
            record {
              world = sched_updates (record w {
                pxupdates =
                    w.pxupdates ++ record { x = x; y = y; r = clr.r; g = clr.g; b = clr.b } ∷ [];
              });
              disk = f.disk;
              sent = [];
              changed = true;
            })
        else record { world = f.world; disk = f.disk; sent = []; changed = false }
  ]

  -- `World::put_px`. The rank of the client is not used.
  unfoldable pub put_px : ℕ → ℕ → Rgb → World → Disk → Did
  put_px x y clr w disk = put_in_chunk x y clr (get_chunk os junk (sar x 4) (sar y 4) w disk)

  -- `World::setChunkProtection`. CHUNK_PROTECTED is 7.
  unfoldable pub set_world_protection : ℕ → ℕ → Bool → World → Disk → Did
  set_world_protection x y state w disk =
      let f = get_chunk os junk x y (record w { db = set_chunk_protection w.db x y state }) disk in
      elim f.chunk [
        | none ↦ record { world = f.world; disk = f.disk; sent = []; changed = false }
        | some c ↦ record {
          world = put_back x y (record c { ranked = state }) f.world;
          disk = f.disk;
          sent =
              prepared binary (7 ∷ (le32 x ++ le32 y ++ (if state then 1 else 0) ∷ []))
                f.world.clients;
          changed = true;
        }
      ]

  -- `chunk.second->save()` for every chunk.
  unfoldable pub save_chunks :
      List (Bytes × Chunk) → Database → Disk → List (Bytes × Chunk) × Database × Disk
  save_chunks [] db disk = ([], db, disk)
  save_chunks ((k, c) ∷ m) db disk =
      let (c', db', disk') = save_chunk os junk c db disk in
      let (m', db'', disk'') = save_chunks m db' disk' in ((k, c') ∷ m', db'', disk'')

  -- `World::save`, and the destructor: `~World` saves every chunk and `~Database` the rest.
  unfoldable pub save : World → Disk → World × Disk
  unfolding save_chunks
  save w disk =
      let (m, db, disk') = save_chunks w.chunks w.db disk in
      let (db', disk'') = Database.save os db disk' in (record w { chunks = m; db = db' }, disk'')
