-- ===== src/World/Edit/Head.antt =====
-- Changes to the chunks of a world leave its name, its clients and its default rank as they are.
use owop_server_for_heroku_g.Base.{ℕ, refl, Bool, ◌%◌, either, maybe}
use owop_server_for_heroku_g.Base.Words.{Bytes, sar}
use owop_server_for_heroku_g.Chunk.{Rgb, set_pixel, Chunk}
use owop_server_for_heroku_g.Database.{set_chunk_protection}
use owop_server_for_heroku_g.Database.Storage.{Disk}
use owop_server_for_heroku_g.Database.Handles.{Os}
use owop_server_for_heroku_g.World.{World}
use owop_server_for_heroku_g.World.Cache.{get_chunk, sched_updates}
use owop_server_for_heroku_g.World.Cache.Head.{SameHead, get_chunk-SameHead}
use owop_server_for_heroku_g.World.Edit.{
  Did, put_back, send_chunk, del_chunk, paste_chunk, put_in_chunk, put_px, set_world_protection,
  save,
}

pub put_back-SameHead :
    (x y : ℕ) (c : Chunk) (w u : World) → SameHead w u → SameHead w (put_back x y c u)
unfolding put_back
put_back-SameHead x y c w u v = record {
  name = v.name;
  clients = v.clients;
  default_rank = v.default_rank;
}

module _ (os : Os) (junk : Bytes) where
  abbrev After : World → Did → Type 0
  After w did = SameHead w did.world

  pub send_chunk-SameHead :
      (ws x y : ℕ) (w : World) (disk : Disk) → After w (send_chunk os junk ws x y w disk)
  unfolding send_chunk
  send_chunk-SameHead ws x y w disk = get_chunk-SameHead os junk x y w disk

  pub del_chunk-SameHead :
      (x y : ℕ) (w : World) (disk : Disk) → After w (del_chunk os junk x y w disk)
  unfolding del_chunk
  del_chunk-SameHead x y w disk =
      let f = get_chunk os junk x y w disk in
      let v = get_chunk-SameHead os junk x y w disk in
      maybe (After w) f.chunk _ _ v (λ c e. put_back-SameHead x y _ w f.world v)

  pub paste_chunk-SameHead :
      (x y : ℕ) (newdata : Bytes) (w : World) (disk : Disk)
      → After w (paste_chunk os junk x y newdata w disk)
  unfolding paste_chunk
  paste_chunk-SameHead x y newdata w disk =
      let f = get_chunk os junk x y w disk in
      let v = get_chunk-SameHead os junk x y w disk in
      maybe (After w) f.chunk _ _ v (λ c e. put_back-SameHead x y _ w f.world v)

  pub put_px-SameHead :
      (x y : ℕ) (clr : Rgb) (w : World) (disk : Disk) → After w (put_px os junk x y clr w disk)
  unfolding put_px put_in_chunk put_back sched_updates
  put_px-SameHead x y clr w disk =
      let f = get_chunk os junk (sar x 4) (sar y 4) w disk in
      let v = get_chunk-SameHead os junk (sar x 4) (sar y 4) w disk in
      maybe (After w) f.chunk _ _ v (λ c e.
        either (After w) (set_pixel c (x % 16) (y % 16) clr).1 _ _
          (record { name = v.name; clients = v.clients; default_rank = v.default_rank }) v)

  pub set_world_protection-SameHead :
      (x y : ℕ) (state : Bool) (w : World) (disk : Disk)
      → After w (set_world_protection os junk x y state w disk)
  unfolding set_world_protection
  set_world_protection-SameHead x y state w disk =
      let u = record w { db = set_chunk_protection w.db x y state } in
      let f = get_chunk os junk x y u disk in
      let v = get_chunk-SameHead os junk x y u disk in
      let same : SameHead w f.world = record {
        name = v.name;
        clients = v.clients;
        default_rank = v.default_rank;
      } in
      maybe (After w) f.chunk _ _ same (λ c e. put_back-SameHead x y _ w f.world same)

  pub save-SameHead : (w : World) (disk : Disk) → SameHead w (save os junk w disk).0
  unfolding save
  save-SameHead w disk = record { name = refl; clients = refl; default_rank = refl }
