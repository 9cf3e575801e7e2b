-- ===== src/Database/Handles/Bounds.antt =====
-- How much the database keeps in memory of the files it has met.
use owop_server_for_heroku_g.Base.{
  ℕ, zero, suc, ◌-◌, ◌≤◌, ◌≡◌, Bool, true, false, not, ◌&&◌, Option, none, some, List, [], ◌∷◌,
  arith, ltb, leb, if◌then◌else◌, length, Bool-cases, Option-cases, inl, inr,
}
use owop_server_for_heroku_g.Base.Words.{Bytes, sar}
use owop_server_for_heroku_g.Base.Eq.{bytes_eq}
use owop_server_for_heroku_g.Base.Assoc.{
  lookup, erase, contains, remove, length-assign, length-erase_le, length-insert_le,
  length-emplace_le, length-remove_le,
}
use owop_server_for_heroku_g.Database.{Database, Handle}
use owop_server_for_heroku_g.Database.Storage.{Disk, file_exists}
use owop_server_for_heroku_g.Database.Handles.{
  Os, key, region_path, with_stream, drop_last, keep_handle, remember_missing, Got, opened,
  open_region, make_dir, get_handle_loop, get_handle, mark, get_chunk, set_chunk,
}

-- At most 17 open region files and 512 regions known to be missing.
pub record IsBounded (db : Database) : Type 0 where
  pub few_handles : length db.handles ≤ 17
  pub few_missing : length db.nonexistant ≤ 512

pub length-drop_last {ℓ} : {A : Type ℓ} (xs : List A) → length (drop_last xs) ≡ length xs - 1
unfolding drop_last
length-drop_last [] = omega arith
length-drop_last (x ∷ []) = omega arith
length-drop_last (x ∷ y ∷ xs) = omega (arith, length-drop_last (y ∷ xs))

keep_handle-IsBounded :
    (mkey : Bytes) (h : Handle) (db : Database) → IsBounded db → IsBounded (keep_handle mkey h db)
unfolding keep_handle
keep_handle-IsBounded mkey h db v =
    let kept = if ltb 16 (length db.handles) then drop_last db.handles else db.handles in
    let room : length kept ≤ 16 = ground (arith, length-drop_last db.handles, v.few_handles) in
    record {
      few_handles = omega (arith, length-insert_le mkey h kept, room);
      few_missing = v.few_missing;
    }

remember_missing-IsBounded :
    (mkey : Bytes) (db : Database) → IsBounded db → IsBounded (remember_missing mkey db)
unfolding remember_missing
remember_missing-IsBounded mkey db v =
    let kept = if leb 512 (length db.nonexistant) then [] else db.nonexistant in
    let room : length kept ≤ 511 = ground (arith, v.few_missing) in
    record {
      few_handles = v.few_handles;
      few_missing = omega (arith, length-emplace_le mkey kept, room);
    }

either :
    (b : Bool) (g h : Got) → IsBounded g.db → IsBounded h.db → IsBounded (if b then g else h).db
either true g h p q = p
either false g h p q = q

with_stream-IsBounded :
    (o : Option Handle) (fresh again : Got) (db : Database) (disk : Disk)
    → IsBounded fresh.db
    → IsBounded again.db
    → IsBounded db
    → IsBounded (with_stream o fresh again db disk).db
unfolding with_stream
with_stream-IsBounded none fresh again db disk p q v = p
with_stream-IsBounded (some h) fresh again db disk p q v = either h.good _ again v q

module _ (os : Os) where
  opened-IsBounded :
      (mkey path : Bytes) (db : Database) (disk : Disk)
      → IsBounded db
      → IsBounded (opened os mkey path db disk).db
  unfolding opened
  opened-IsBounded mkey path db disk v = elim (Bool-cases (os.opens path)) [
    | inl good ↦ rw (good, opened) (keep_handle-IsBounded mkey _ db v)
    | inr bad ↦ rw (bad, opened) v
  ]

  open_region-IsBounded :
      (mkey path : Bytes) (create : Bool) (db : Database) (disk : Disk)
      → IsBounded db
      → IsBounded (open_region os mkey path create db disk).db
  unfolding open_region
  open_region-IsBounded mkey path create db disk v = elim (Bool-cases (file_exists path disk)) [
    | inl there ↦ rw (there, open_region) (opened-IsBounded mkey path db disk v)
    | inr missing ↦ elim (Bool-cases create) [
      | inl made ↦ rw (missing, made, open_region) (opened-IsBounded mkey path db _ v)
      | inr kept ↦ rw (missing, kept, open_region) (remember_missing-IsBounded mkey db v)
    ]
  ]

  make_dir-IsBounded :
      (create : Bool) (db : Database) (disk : Disk)
      → IsBounded db
      → IsBounded (make_dir os create db disk).0
  unfolding make_dir
  make_dir-IsBounded create db disk v = ground arith

  forget :
      (create : Bool) (mkey : Bytes) (db : Database)
      → IsBounded db
      → IsBounded (if create then record db { nonexistant = remove mkey db.nonexistant } else db)
  forget true mkey db v = record {
    few_handles = v.few_handles;
    few_missing = omega (arith, length-remove_le mkey db.nonexistant, v.few_missing);
  }
  forget false mkey db v = v

  get_handle_loop-IsBounded :
      (fuel x y : ℕ) (create : Bool) (db : Database) (disk : Disk)
      → IsBounded db
      → IsBounded (get_handle_loop os fuel x y create db disk).db
  unfolding get_handle_loop
  get_handle_loop-IsBounded zero x y create db disk v = v
  get_handle_loop-IsBounded (suc fuel) x y create db disk v =
      let made = make_dir-IsBounded create db disk v in
      let mkey = key (sar x 5) (sar y 5) in
      let db1 = (make_dir os create db disk).0 in
      let known = forget create mkey db1 made in
      let db2 = if create then record db1 { nonexistant = remove mkey db1.nonexistant } else db1 in
      let dropped : IsBounded (record db2 { handles = erase mkey db2.handles }) = record {
        few_handles = omega (arith, length-erase_le mkey db2.handles, known.few_handles);
        few_missing = known.few_missing;
      } in
      either (not (make_dir os create db disk).2) _ _ made (
        either (contains mkey db1.nonexistant && not create) _ _ made (
          with_stream-IsBounded (lookup mkey db2.handles) _ _ db2 _
            (open_region-IsBounded mkey (region_path db2.dir (sar x 5) (sar y 5)) create db2 _
              known)
            (get_handle_loop-IsBounded fuel x y create
              (record db2 { handles = erase mkey db2.handles }) _ dropped)
            known))

  mark-IsBounded :
      (x y : ℕ) (path : Bytes) (good : Bool) (db : Database)
      → IsBounded db
      → IsBounded (mark os x y path good db)
  unfolding mark
  mark-IsBounded x y path true db v = v
  mark-IsBounded x y path false db v = record {
    few_handles = omega (
      arith,
      length-assign (key (sar x 5) (sar y 5)) (record { path = path; good = false }) db.handles,
      v.few_handles,
    );
    few_missing = v.few_missing;
  }

  handle-IsBounded :
      (x y : ℕ) (create : Bool) (db : Database) (disk : Disk)
      → IsBounded db
      → IsBounded (get_handle os x y create db disk).db
  unfolding get_handle
  handle-IsBounded = get_handle_loop-IsBounded 2

  -- Loading a chunk keeps the limits: never more than 17 streams are open and never more than 512
  -- missing regions are remembered, whatever the system answers.
  pub get_chunk-IsBounded :
      (x y : ℕ) (arr : Bytes) (db : Database) (disk : Disk)
      → IsBounded db
      → IsBounded (get_chunk os x y arr db disk).1
  unfolding get_chunk
  get_chunk-IsBounded x y arr db disk v =
      let got = handle-IsBounded x y false db disk v in
      elim (Option-cases (get_handle os x y false db disk).handle) [
        | inl null ↦ rw (null, get_chunk) got
        | inr (path, stream) ↦ rw (stream, get_chunk) (mark-IsBounded x y path _ _ got)
      ]

  -- Saving a chunk keeps the limits: never more than 17 streams are open and never more than 512
  -- missing regions are remembered, whatever the system answers.
  pub set_chunk-IsBounded :
      (x y : ℕ) (arr : Bytes) (db : Database) (disk : Disk)
      → IsBounded db
      → IsBounded (set_chunk os x y arr db disk).0
  unfolding set_chunk
  set_chunk-IsBounded x y arr db disk v =
      let got = handle-IsBounded x y true db disk v in
      elim (Option-cases (get_handle os x y true db disk).handle) [
        | inl null ↦ rw (null, set_chunk) got
        | inr (path, stream) ↦ rw (stream, set_chunk) (mark-IsBounded x y path _ _ got)
      ]
