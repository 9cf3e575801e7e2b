-- ===== src/World/Steps/Operations.antt =====
-- Every operation of a world keeps what holds between two calls.
use owop_server_for_heroku_g.Base.{
  ℕ, suc, ◌≡◌, refl, ap, ◌%◌, Bool, true, List, [], ◌∷◌, arith, length, Bool-cases, Option-cases,
  inl, inr,
}
use owop_server_for_heroku_g.Base.Words.{Bytes, codes, sar}
use owop_server_for_heroku_g.Base.Eq.{nat_eq}
use owop_server_for_heroku_g.Base.Assoc.{remove}
use owop_server_for_heroku_g.Net.{Out}
use owop_server_for_heroku_g.Chunk.{Chunk, Rgb, clear, set_bytes, set_pixel, data_size}
use owop_server_for_heroku_g.Database.{Database, set_chunk_protection, database}
use owop_server_for_heroku_g.Database
use owop_server_for_heroku_g.Database.Storage.{Disk}
use owop_server_for_heroku_g.Database.Handles.{Os}
use owop_server_for_heroku_g.Database.Handles.Bounds.{IsBounded}
use owop_server_for_heroku_g.World.{World}
use owop_server_for_heroku_g.World.Cache.{Found, get_chunk, sched_updates}
use owop_server_for_heroku_g.World.Cache.Store.{save_chunk-IsBounded}
use owop_server_for_heroku_g.World.Edit.{
  del_chunk, paste_chunk, put_in_chunk, set_world_protection, save_chunks, save,
}
use owop_server_for_heroku_g.World.Props.{reload, reload_paintrate, reload_bgclr, get_prop}
use owop_server_for_heroku_g.World.Props.Stoul.{
  Parsed, value, invalid_argument, out_of_range, stoul,
}
use owop_server_for_heroku_g.World.Clients.{rm_cli}
use owop_server_for_heroku_g.World.Updates.{is_empty, Seen, after_updates}
use owop_server_for_heroku_g.World.Steps.Sound.{
  IsSound, scheduled, get_chunk-IsSound, put_back-IsSound,
}

pub rm_cli-IsSound : (ws id : ℕ) (w : World) → IsSound w → IsSound (rm_cli ws id w)
unfolding rm_cli sched_updates scheduled
rm_cli-IsSound ws id w v = elim (Bool-cases (is_empty (remove ws w.clients))) [
  | inl gone ↦
      rw (gone, rm_cli)
        (record {
          limited = v.limited;
          bounded = v.bounded;
          live = rw (gone, scheduled) (ground arith);
        })
  | inr more ↦ rw (more, rm_cli) (record { limited = v.limited; bounded = v.bounded; live = refl })
]

pub after_updates-live : (seen : ℕ → Seen) (w : World) → scheduled (after_updates seen w) ≡ true
unfolding after_updates scheduled
after_updates-live seen w = ground arith

-- Whatever std::stoul makes of a property.
parsed-IsSound :
    (p : Parsed) (w : World) (f : ℕ → World × List Out) (a b : List Out)
    → IsSound w
    → ((n : ℕ) → IsSound (f n).0)
    → IsSound
        (elim p as (λ x. World × List Out) [
          | value n ↦ f n
          | invalid_argument ↦ (w, a)
          | out_of_range ↦ (w, b)
        ]).0
parsed-IsSound (value n) w f a b v h = h n
parsed-IsSound invalid_argument w f a b v h = v
parsed-IsSound out_of_range w f a b v h = v

reload_bgclr-IsSound : (w : World) → IsSound w → IsSound (reload_bgclr w).0
unfolding reload_bgclr scheduled
reload_bgclr-IsSound w v =
    parsed-IsSound (stoul 16 (get_prop w (codes "bgcolor") (codes "FFFFFF"))) w _ _ _ v
      (λ n. record { limited = v.limited; bounded = v.bounded; live = v.live })

pub reload-IsSound : (w : World) → IsSound w → IsSound (reload w).0
unfolding reload reload_paintrate scheduled
reload-IsSound w v =
    let w' = record w { pass = get_prop w (codes "password") [] } in
    let v' : IsSound w' = record { limited = v.limited; bounded = v.bounded; live = v.live } in
    parsed-IsSound (stoul 10 (get_prop w' (codes "paintrate") (codes "32"))) w' _ _ _ v' (λ n.
      reload_bgclr-IsSound _ (record { limited = v.limited; bounded = v.bounded; live = v.live }))

save-IsBounded :
    (os : Os) (db : Database) (disk : Disk) → IsBounded db → IsBounded (Database.save os db disk).0
unfolding Database.save
save-IsBounded os db disk v = elim (Bool-cases db.changed_props_or_protects) [
  | inl dirty ↦
      rw (dirty, Database.save)
        (record { few_handles = v.few_handles; few_missing = v.few_missing })
  | inr clean ↦
      rw (clean, Database.save)
        (record { few_handles = v.few_handles; few_missing = v.few_missing })
]

module _ (os : Os) (junk : Bytes) where
  pub del_chunk-IsSound :
      (x y : ℕ) (w : World) (disk : Disk) → IsSound w → IsSound (del_chunk os junk x y w disk).world
  unfolding del_chunk
  del_chunk-IsSound x y w disk v =
      let got = get_chunk-IsSound os junk x y w disk v in
      elim (Option-cases (get_chunk os junk x y w disk).chunk) [
        | inl e ↦ rw (e, del_chunk) got
        | inr (c, e) ↦ rw (e, del_chunk) (put_back-IsSound x y (clear c) _ got)
      ]

  pub paste_chunk-IsSound :
      (x y : ℕ) (newdata : Bytes) (w : World) (disk : Disk)
      → IsSound w
      → IsSound (paste_chunk os junk x y newdata w disk).world
  unfolding paste_chunk
  paste_chunk-IsSound x y newdata w disk v =
      let got = get_chunk-IsSound os junk x y w disk v in
      elim (Option-cases (get_chunk os junk x y w disk).chunk) [
        | inl e ↦ rw (e, paste_chunk) got
        | inr (c, e) ↦
            rw (e, paste_chunk) (put_back-IsSound x y (set_bytes c newdata data_size) _ got)
      ]

  pub put_in_chunk-IsSound :
      (x y : ℕ) (clr : Rgb) (f : Found)
      → IsSound f.world
      → IsSound (put_in_chunk os junk x y clr f).world
  unfolding put_in_chunk sched_updates scheduled
  put_in_chunk-IsSound x y clr f v = elim (Option-cases f.chunk) [
    | inl e ↦ rw (e, put_in_chunk) v
    | inr (c, e) ↦
        let back =
          put_back-IsSound (sar x 4) (sar y 4) (set_pixel c (x % 16) (y % 16) clr).0 f.world v in
        elim (Bool-cases (set_pixel c (x % 16) (y % 16) clr).1) [
          | inl changed ↦
              rw (e, changed, put_in_chunk)
                (record { limited = back.limited; bounded = back.bounded; live = refl })
          | inr same ↦ rw (e, same, put_in_chunk) v
        ]
  ]

  pub protection-IsSound :
      (x y : ℕ) (state : Bool) (w : World) (disk : Disk)
      → IsSound w
      → IsSound (set_world_protection os junk x y state w disk).world
  unfolding set_world_protection set_chunk_protection scheduled
  protection-IsSound x y state w disk v =
      let w' = record w { db = set_chunk_protection w.db x y state } in
      let v' : IsSound w' = record {
        limited = v.limited;
        bounded = record {
          few_handles = v.bounded.few_handles;
          few_missing = v.bounded.few_missing;
        };
        live = v.live;
      } in
      let got = get_chunk-IsSound os junk x y w' disk v' in
      elim (Option-cases (get_chunk os junk x y w' disk).chunk) [
        | inl e ↦ rw (e, set_world_protection) got
        | inr (c, e) ↦ rw (e, set_world_protection) (put_back-IsSound x y _ _ got)
      ]

  save_chunks-IsBounded :
      (m : List (Bytes × Chunk)) (db : Database) (disk : Disk)
      → IsBounded db
      → IsBounded (save_chunks os junk m db disk).1
  unfolding save_chunks
  save_chunks-IsBounded [] db disk v = v
  save_chunks-IsBounded ((k, c) ∷ m) db disk v =
      save_chunks-IsBounded m _ _ (save_chunk-IsBounded os junk c db disk v)

  length-save_chunks :
      (m : List (Bytes × Chunk)) (db : Database) (disk : Disk)
      → length (save_chunks os junk m db disk).0 ≡ length m
  unfolding save_chunks
  length-save_chunks [] db disk = refl
  length-save_chunks ((k, c) ∷ m) db disk = ap suc (length-save_chunks m _ _)

  pub save-IsSound : (w : World) (disk : Disk) → IsSound w → IsSound (save os junk w disk).0
  unfolding save scheduled
  save-IsSound w disk v = record {
    limited = omega (arith, length-save_chunks w.chunks w.db disk, v.limited);
    bounded = save-IsBounded os _ _ (save_chunks-IsBounded w.chunks w.db disk v.bounded);
    live = v.live;
  }
