-- ===== src/Database/Handles.antt =====
-- The streams of database.cpp: `get_handle`, `get_chunk` and `set_chunk`. Whether the system makes a
-- directory or opens a file is a parameter.
pub mod Bounds
pub mod Fuel
use owop_server_for_heroku_g.Base.{
  ℕ, zero, suc, ◌+◌, ◌-◌, ◌^◌, Bool, true, false, not, ◌&&◌, Option, none, some, List, [], ◌∷◌,
  ◌++◌, ltb, leb, if◌then◌else◌, length,
}
use owop_server_for_heroku_g.Base.Words.{Bytes, codes, le32, sar, is_negative, to_string}
use owop_server_for_heroku_g.Base.Eq.{bytes_eq}
use owop_server_for_heroku_g.Base.Assoc.{lookup, insert, assign, erase, contains, emplace, remove}
use owop_server_for_heroku_g.Database.{Database, Handle}
pub use owop_server_for_heroku_g.Database.Storage.{Os}
use owop_server_for_heroku_g.Database.Storage.{Disk, file_exists, read_file}
use owop_server_for_heroku_g.Database.Region.{Reading, empty_region, region_get, region_set}

abbrev pub world_max_file_handles : ℕ
world_max_file_handles = 16

-- `key` of server.hpp: the bytes of the two coordinates.
abbrev pub key : ℕ → ℕ → Bytes
key i j = le32 i ++ le32 j

-- std::to_string of an `int32_t`.
pub to_string_signed : ℕ → Bytes
to_string_signed w = if is_negative w then 45 ∷ to_string (2 ^ 32 - w) else to_string w

pub region_path : Bytes → ℕ → ℕ → Bytes
region_path dir rx ry =
    dir
    ++ (codes "r." ++ (to_string_signed rx ++ (codes "." ++ (to_string_signed ry ++ codes ".pxr"))))

-- Erases the entry that the two iterators stop at, the last one.
pub drop_last {ℓ} : {A : Type ℓ} → List A → List A
drop_last [] = []
drop_last (x ∷ []) = []
drop_last (x ∷ y ∷ xs) = x ∷ drop_last (y ∷ xs)

-- `handles[mkey] = handle`, after closing one if there are too many.
pub keep_handle : Bytes → Handle → Database → Database
keep_handle mkey handle db = record db {
  handles =
      insert mkey handle (
        if ltb world_max_file_handles (length db.handles)
        then drop_last db.handles
        else db.handles);
}

-- A missing region is remembered; the memory is cleared when it is full.
pub remember_missing : Bytes → Database → Database
remember_missing mkey db = record db {
  nonexistant = emplace mkey (if leb 512 (length db.nonexistant) then [] else db.nonexistant);
}

-- The path of the stream that is returned, and the new state.
pub record Got : Type 0 where
  pub handle : Option Bytes
  pub db : Database
  pub disk : Disk

-- The last branch: no stream yet, a good one, or one that has gone bad.
pub with_stream : Option Handle → Got → Got → Database → Disk → Got
with_stream none fresh again db disk = fresh
with_stream (some h) fresh again db disk =
    if h.good then record { handle = some h.path; db = db; disk = disk } else again

module _ (os : Os) where
  -- A good stream is kept, a bad one deleted.
  pub opened : Bytes → Bytes → Database → Disk → Got
  opened mkey path db disk =
      if os.opens path
      then record {
        handle = some path;
        db = keep_handle mkey (record { path = path; good = true }) db;
        disk = disk;
      }
      else record { handle = none; db = db; disk = disk }

  -- The branch for a region without a stream.
  pub open_region : Bytes → Bytes → Bool → Database → Disk → Got
  open_region mkey path create db disk =
      if file_exists path disk
      then opened mkey path db disk
      else if create
      then opened mkey path db (
          if os.opens path
          then record disk { files = insert path empty_region disk.files }
          else disk)
      else record { handle = none; db = remember_missing mkey db; disk = disk }

  -- `!created_dir && create`; the last part says whether to go on.
  pub make_dir : Bool → Database → Disk → Database × Disk × Bool
  make_dir create db disk =
      if not db.created_dir && create
      then if os.mkdir db.dir
        then (
          record db { created_dir = true },
          record disk { dirs = emplace db.dir disk.dirs },
          true,
        )
        else (db, disk, false)
      else (db, disk, true)

  -- Where a stream has gone bad it is dropped and the function calls itself, which finds none then:
  -- two rounds are enough.
  pub get_handle_loop : ℕ → ℕ → ℕ → Bool → Database → Disk → Got
  get_handle_loop zero x y create db disk = record { handle = none; db = db; disk = disk }
  get_handle_loop (suc fuel) x y create db disk =
      let (db1, disk1, goes_on) = make_dir create db disk in
      let rx = sar x 5 in
      let ry = sar y 5 in
      let mkey = key rx ry in
      let db2 = if create then record db1 { nonexistant = remove mkey db1.nonexistant } else db1 in
      let again =
        get_handle_loop fuel x y create (record db2 { handles = erase mkey db2.handles }) disk1 in
      if not goes_on
      then record { handle = none; db = db1; disk = disk1 }
      else if contains mkey db1.nonexistant && not create
      then record { handle = none; db = db1; disk = disk1 }
      else with_stream (lookup mkey db2.handles)
          (open_region mkey (region_path db2.dir rx ry) create db2 disk1) again db2 disk1

  unfoldable pub get_handle : ℕ → ℕ → Bool → Database → Disk → Got
  unfolding get_handle_loop
  get_handle x y create db disk = get_handle_loop 2 x y create db disk

  -- The stream of a region after an operation on it.
  pub mark : ℕ → ℕ → Bytes → Bool → Database → Database
  mark x y path good db = if good then db else record db {
    handles = assign (key (sar x 5) (sar y 5)) (record { path = path; good = false }) db.handles;
  }

  -- `Database::get_chunk`; `arr` is the caller's buffer.
  unfoldable pub get_chunk : ℕ → ℕ → Bytes → Database → Disk → (Bytes × Bool) × Database × Disk
  get_chunk x y arr db disk =
      let got = get_handle x y false db disk in
      elim got.handle [
        | none ↦ ((arr, false), got.db, got.disk)
        | some path ↦
            let r = region_get (read_file path got.disk) x y arr in
            ((r.arr, r.found), mark x y path r.good got.db, got.disk)
      ]

  -- `Database::set_chunk`. If there is no stream the chunk is not saved.
  unfoldable pub set_chunk : ℕ → ℕ → Bytes → Database → Disk → Database × Disk
  set_chunk x y arr db disk =
      let got = get_handle x y true db disk in
      elim got.handle [
        | none ↦ (got.db, got.disk)
        | some path ↦
            let (s, good) = region_set (read_file path got.disk) x y arr in
            (mark x y path good got.db, record got.disk { files = insert path s got.disk.files })
      ]
