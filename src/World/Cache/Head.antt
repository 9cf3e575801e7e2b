-- ===== src/World/Cache/Head.antt =====
-- What loading and evicting chunks leaves of a world as it is.
use owop_server_for_heroku_g.Base.{ℕ, ◌≡◌, refl, ltb, length, either, maybe}
use owop_server_for_heroku_g.Base.Words.{Bytes}
use owop_server_for_heroku_g.Base.Eq.{bytes_eq}
use owop_server_for_heroku_g.Base.Assoc.{lookup}
use owop_server_for_heroku_g.Database.Storage.{Disk}
use owop_server_for_heroku_g.Database.Handles.{Os, key}
use owop_server_for_heroku_g.World.{World}
use owop_server_for_heroku_g.World.Cache.{
  world_max_chunks_loaded, Found, out_of_world, evict, load, get_chunk, last_chunk,
}

-- The same name, clients and default rank.
pub record SameHead (w w' : World) : Type 0 where
  pub name : w'.name ≡ w.name
  pub clients : w'.clients ≡ w.clients
  pub default_rank : w'.default_rank ≡ w.default_rank

pub SameHead-refl : (w : World) → SameHead w w
SameHead-refl w = record { name = refl; clients = refl; default_rank = refl }

module _ (os : Os) (junk : Bytes) where
  evict-SameHead : (w : World) (disk : Disk) → SameHead w (evict os junk w disk).0
  unfolding evict
  evict-SameHead w disk =
      let Same : World × Disk → Type 0 = λ did. SameHead w did.0 in
      either Same (ltb world_max_chunks_loaded (length w.chunks)) _ _
        (maybe Same (last_chunk w.chunks) _ _ (SameHead-refl w)
          (λ c e. record { name = refl; clients = refl; default_rank = refl }))
        (SameHead-refl w)

  pub get_chunk-SameHead :
      (x y : ℕ) (w : World) (disk : Disk) → SameHead w (get_chunk os junk x y w disk).world
  unfolding get_chunk load
  get_chunk-SameHead x y w disk =
      let Same : Found → Type 0 = λ f. SameHead w f.world in
      let v = evict-SameHead w disk in
      either Same (out_of_world x y) _ _ (SameHead-refl w) (
        maybe Same (lookup (key x y) w.chunks) _ _
          (record { name = v.name; clients = v.clients; default_rank = v.default_rank })
          (λ c e. SameHead-refl w))
