-- ===== src/Database.antt =====
-- The `Database` class of database.cpp, over a disk that holds directories and files.
pub mod Region
pub mod PropMap
pub mod Storage
pub mod Handles
pub mod Tables
pub mod Saved
mod Tests
use owop_server_for_heroku_g.Base.{
  ℕ, Bool, true, false, not, ◌&&◌, Option, none, some, List, [], ◌∷◌, ◌++◌, ltb, leb, ◌==◌, ◌+◌,
  ◌*◌, ◌/◌, ◌%◌, ◌^◌, if◌then◌else◌, length, map,
}
use owop_server_for_heroku_g.Base.Words.{Bytes, codes, le32, sar}
use owop_server_for_heroku_g.Base.Eq.{nat_eq, bytes_eq, eq_bytes}
use owop_server_for_heroku_g.Base.Assoc.{lookup, contains, emplace, remove}
use PropMap.{Props, find_prop, put_prop, drop_prop, print_props, parse_props}
use Storage.{Os, Disk, write_file, remove_file, read_file, print_chunks, parse_chunks, has_dir}

-- A `std::fstream`: the file that it has open, and good().
pub record Handle : Type 0 where
  pub path : Bytes
  pub good : Bool

pub record Database : Type 0 where
  pub dir : Bytes
  pub created_dir : Bool
  pub handles : List (Bytes × Handle)
  pub nonexistant : List Bytes
  pub world_props : Props
  pub ranked_chunks : List ℕ
  pub changed_props_or_protects : Bool

-- The constructor. `dir` ends with a slash.
unfoldable pub database : Bytes → Disk → Database
database dir disk =
    let created = has_dir dir disk in
    record {
      dir = dir;
      created_dir = created;
      handles = [];
      nonexistant = [];
      world_props = if created then parse_props (read_file (dir ++ codes "props.txt") disk) else [];
      ranked_chunks =
          if created then parse_chunks (read_file (dir ++ codes "pchunks.bin") disk) else [];
      changed_props_or_protects = false;
    }

-- `Database::save`.
unfoldable pub save : Os → Database → Disk → Database × Disk
save os db disk =
    if not db.changed_props_or_protects
    then (db, disk)
    else (let props = db.dir ++ codes "props.txt" in
        let pchunks = db.dir ++ codes "pchunks.bin" in
        let disk' : Disk = elim db.world_props [
          | [] ↦ remove_file props disk
          | kv ∷ more ↦ write_file os db.dir props (print_props (kv ∷ more)) disk
        ] in
        let disk'' : Disk = elim db.ranked_chunks [
          | [] ↦ remove_file pchunks disk'
          | pos ∷ more ↦ write_file os db.dir pchunks (print_chunks (pos ∷ more)) disk'
        ] in
        (record db { changed_props_or_protects = false }, disk''))

-- The union of two `int32_t` read as a `uint64_t`.
abbrev pub pack : ℕ → ℕ → ℕ
pack x y = x + y * 2 ^ 32

unfoldable pub set_chunk_protection : Database → ℕ → ℕ → Bool → Database
set_chunk_protection db x y state = record db {
  ranked_chunks =
      if state then emplace (pack x y) db.ranked_chunks else remove (pack x y) db.ranked_chunks;
  changed_props_or_protects = true;
}

unfoldable pub get_chunk_protection : Database → ℕ → ℕ → Bool
get_chunk_protection db x y = contains (pack x y) db.ranked_chunks

unfoldable pub get_prop : Database → Bytes → Bytes → Bytes
get_prop db key defval = elim (find_prop key db.world_props) [ none ↦ defval | some v ↦ v ]

unfoldable pub set_prop : Database → Bytes → Bytes → Database
set_prop db key value = record db {
  world_props = elim value [
    | [] ↦ drop_prop key db.world_props
    | c ∷ more ↦ put_prop key (c ∷ more) db.world_props
  ];
  changed_props_or_protects = true;
}
