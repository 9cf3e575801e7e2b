-- ===== src/World/Steps/Sound.antt =====
-- What holds of a world between two calls, and that getting a chunk and changing one keep it.
use owop_server_for_heroku_g.Base.{
  ℕ, ◌≡◌, refl, ap, sym, subst, ◌∙◌, Bool, true, ◌&&◌, ◌||◌, List, arith,
}
use owop_server_for_heroku_g.Base.Words.{Bytes}
use owop_server_for_heroku_g.Base.Eq.{bytes_eq}
use owop_server_for_heroku_g.Base.Assoc.{length-assign}
use owop_server_for_heroku_g.Chunk.{Chunk}
use owop_server_for_heroku_g.Database.{Database}
use owop_server_for_heroku_g.Database.Storage.{Disk}
use owop_server_for_heroku_g.Database.Handles.{Os, key}
use owop_server_for_heroku_g.Database.Handles.Bounds.{IsBounded}
use owop_server_for_heroku_g.World.{World}
use owop_server_for_heroku_g.World.Cache.{get_chunk}
use owop_server_for_heroku_g.World.Cache.Store.{with_store, get_chunk-store}
use owop_server_for_heroku_g.World.Cache.Limits.{IsLimited, get_chunk-IsLimited}
use owop_server_for_heroku_g.World.Edit.{put_back}
use owop_server_for_heroku_g.World.Updates.{is_empty}

-- Whatever is pending will be sent: the timer runs, or there is nothing, or nobody, to send it to.
unfoldable pub scheduled : World → Bool
scheduled w =
    w.upd_active
    || is_empty w.clients
    || (is_empty w.plupdates && is_empty w.pxupdates && is_empty w.plleft)

pub record IsSound (w : World) : Type 0 where
  pub limited : IsLimited w
  pub bounded : IsBounded w.db
  pub live : scheduled w ≡ true

-- A world may change in everything that the invariant does not read.
scheduled-active : (w : World) → w.upd_active ≡ true → scheduled w ≡ true
unfolding scheduled
scheduled-active w h = rw (h, scheduled) refl

scheduled-with_store :
    (w : World) (m : List (Bytes × Chunk)) (db : Database)
    → scheduled (with_store w m db) ≡ scheduled w
unfolding scheduled
scheduled-with_store w m db = refl

module _ (os : Os) (junk : Bytes) where
  pub get_chunk-IsSound :
      (x y : ℕ) (w : World) (disk : Disk) → IsSound w → IsSound (get_chunk os junk x y w disk).world
  get_chunk-IsSound x y w disk v =
      let (m, db, e, bounded) = get_chunk-store os junk x y w disk v.bounded in
      record {
        limited = get_chunk-IsLimited os junk x y w disk v.limited;
        bounded = subst (λ u. IsBounded u.db) (sym e) bounded;
        live = ap scheduled e ∙ scheduled-with_store w m db ∙ v.live;
      }

pub put_back-IsSound : (x y : ℕ) (c : Chunk) (w : World) → IsSound w → IsSound (put_back x y c w)
unfolding put_back scheduled
put_back-IsSound x y c w v = record {
  limited = omega (arith, length-assign (key x y) c w.chunks, v.limited);
  bounded = v.bounded;
  live = v.live;
}
