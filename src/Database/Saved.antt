-- ===== src/Database/Saved.antt =====
-- The protections of a database after it is saved and opened again.
pub mod Lines
pub mod Marks
use owop_server_for_heroku_g.Base.{
  or_swap, or_none, ℕ, ◌≡◌, refl, ap, ◌∙◌, ◌+◌, ◌*◌, ◌/◌, ◌%◌, ◌^◌, ◌<◌, true, ◌||◌, List, [], ◌∷◌,
  ◌++◌, ◌==◌, arith, All, length, ◌&&◌, either,
}
use owop_server_for_heroku_g.Base.Words.{Bytes, codes}
use owop_server_for_heroku_g.Base.Eq.{nat_eq, bytes_eq, eq_bytes_iff}
use owop_server_for_heroku_g.Base.Assoc.{
  contains, emplace, contains-emplace, lookup-insert, lookup-erase,
}
use owop_server_for_heroku_g.Database.{Database, database, save, get_chunk_protection, pack}
use owop_server_for_heroku_g.Database.PropMap.{Props, print_props}
use owop_server_for_heroku_g.Database.Storage.{
  Os, Disk, has_dir, read_file, write_file, remove_file, print_chunks, read_words, parse_chunks,
  word32,
}

-- A `uint64_t`.
abbrev pub IsLong : ℕ → Type 0
IsLong n = n < 2 ^ 64

length-print_chunks : (l : List ℕ) → length (print_chunks l) ≡ 8 * length l
unfolding print_chunks
length-print_chunks [] = refl
length-print_chunks (n ∷ l) = omega (arith, length-print_chunks l)

long_back :
    (n : ℕ)
    → IsLong n
    → word32
          (n % 2 ^ 32 % 256)
          (n % 2 ^ 32 / 2 ^ 8 % 256)
          (n % 2 ^ 32 / 2 ^ 16 % 256)
          (n % 2 ^ 32 / 2 ^ 24 % 256)
        + word32
            (n / 2 ^ 32 % 256)
            (n / 2 ^ 32 / 2 ^ 8 % 256)
            (n / 2 ^ 32 / 2 ^ 16 % 256)
            (n / 2 ^ 32 / 2 ^ 24 % 256)
          * 2 ^ 32
      ≡ n
long_back n h = omega arith

contains-read_words :
    (l : List ℕ) (j : ℕ) (m : List ℕ)
    → All IsLong l
    → contains j (read_words (print_chunks l) m) ≡ (contains j l || contains j m)
unfolding print_chunks read_words contains
contains-read_words [] j m h = refl
contains-read_words (n ∷ l) j m (hn, h) =
    contains-read_words l j (emplace _ m) h
    ∙ ap (λ k. contains j l || contains j (emplace k m)) (long_back n hn)
    ∙ ap (λ b. contains j l || b) (contains-emplace n j m)
    ∙ or_swap (contains j l) (n == j) (contains j m)

contains-parse_chunks :
    (l : List ℕ) (j : ℕ) → All IsLong l → contains j (parse_chunks (print_chunks l)) ≡ contains j l
unfolding parse_chunks contains
contains-parse_chunks l j h =
    let whole : (length (print_chunks l) % 8 == 0) ≡ true = ground (arith, length-print_chunks l) in
    rw (whole, parse_chunks) (contains-read_words l j [] h ∙ or_none (contains j l))

pub read_file-write_file :
    (os : Os) (dir path s : Bytes) (disk : Disk)
    → has_dir dir disk ≡ true
    → os.opens path ≡ true
    → read_file path (write_file os dir path s disk) ≡ s
unfolding write_file read_file
read_file-write_file os dir path s disk there good =
    rw (there, good, write_file)
      (rw (lookup-insert path path s disk.files, (eq_bytes_iff path path).1 refl, read_file) refl)

pub read_file-remove_file :
    (path : Bytes) (disk : Disk) → read_file path (remove_file path disk) ≡ []
unfolding remove_file read_file
read_file-remove_file path disk =
    rw (lookup-erase path path disk.files, (eq_bytes_iff path path).1 refl, read_file) refl

-- The file behind a save: the second file is written, or removed, after the first one, which leaves the
-- directories alone.
pub saved_text : Os → Bytes → List ℕ → Disk → Disk
saved_text os dir [] disk = remove_file (dir ++ codes "pchunks.bin") disk
saved_text os dir (n ∷ l) disk =
    write_file os dir (dir ++ codes "pchunks.bin") (print_chunks (n ∷ l)) disk

read_file-saved_text :
    (os : Os) (dir : Bytes) (l : List ℕ) (disk : Disk)
    → has_dir dir disk ≡ true
    → os.opens (dir ++ codes "pchunks.bin") ≡ true
    → read_file (dir ++ codes "pchunks.bin") (saved_text os dir l disk) ≡ print_chunks l
unfolding saved_text print_chunks
read_file-saved_text os dir [] disk there good =
    read_file-remove_file (dir ++ codes "pchunks.bin") disk
read_file-saved_text os dir (n ∷ l) disk there good =
    read_file-write_file os dir (dir ++ codes "pchunks.bin") (print_chunks (n ∷ l)) disk there good

pub saved_props : Os → Bytes → Props → Disk → Disk
saved_props os dir [] disk = remove_file (dir ++ codes "props.txt") disk
saved_props os dir (kv ∷ m) disk =
    write_file os dir (dir ++ codes "props.txt") (print_props (kv ∷ m)) disk

pub has_dir-saved_props :
    (os : Os) (dir other : Bytes) (m : Props) (disk : Disk)
    → has_dir other (saved_props os dir m disk) ≡ has_dir other disk
unfolding saved_props remove_file write_file has_dir
has_dir-saved_props os dir other [] disk = refl
has_dir-saved_props os dir other (kv ∷ m) disk =
    either (λ (d : Disk). has_dir other d ≡ has_dir other disk)
      (has_dir dir disk && os.opens (dir ++ codes "props.txt")) _ _ refl refl

pub has_dir-saved_text :
    (os : Os) (dir other : Bytes) (l : List ℕ) (disk : Disk)
    → has_dir other (saved_text os dir l disk) ≡ has_dir other disk
unfolding saved_text remove_file write_file has_dir
has_dir-saved_text os dir other [] disk = refl
has_dir-saved_text os dir other (n ∷ l) disk =
    either (λ (d : Disk). has_dir other d ≡ has_dir other disk)
      (has_dir dir disk && os.opens (dir ++ codes "pchunks.bin")) _ _ refl refl

text_branches :
    (os : Os) (dir : Bytes) (l : List ℕ) (disk : Disk)
    → (elim l as (λ x. Disk) [
      | [] ↦ remove_file (dir ++ codes "pchunks.bin") disk
      | n ∷ more ↦ write_file os dir (dir ++ codes "pchunks.bin") (print_chunks (n ∷ more)) disk
    ])
      ≡ saved_text os dir l disk
unfolding saved_text
text_branches os dir [] disk = refl
text_branches os dir (n ∷ l) disk = refl

props_branches :
    (os : Os) (dir : Bytes) (m : Props) (disk : Disk)
    → (elim m as (λ x. Disk) [
      | [] ↦ remove_file (dir ++ codes "props.txt") disk
      | kv ∷ more ↦ write_file os dir (dir ++ codes "props.txt") (print_props (kv ∷ more)) disk
    ])
      ≡ saved_props os dir m disk
unfolding saved_props
props_branches os dir [] disk = refl
props_branches os dir (kv ∷ m) disk = refl

pub disk-save :
    (os : Os) (db : Database) (disk : Disk)
    → db.changed_props_or_protects ≡ true
    → (save os db disk).1
      ≡ saved_text os db.dir db.ranked_chunks (saved_props os db.dir db.world_props disk)
unfolding save
disk-save os db disk dirty =
    rw (dirty, save)
      (text_branches os db.dir db.ranked_chunks _
        ∙ ap (saved_text os db.dir db.ranked_chunks) (props_branches os db.dir db.world_props disk))

-- A database with unsaved changes, whose directory is there and whose file can be
-- opened, saved and opened again under the same
-- directory, protects the same chunks. Coordinates are packed into numbers of 64 bits.
pub get_chunk_protection-save :
    (os : Os) (db : Database) (disk : Disk) (x y : ℕ)
    → db.changed_props_or_protects ≡ true
    → has_dir db.dir disk ≡ true
    → os.opens (db.dir ++ codes "pchunks.bin") ≡ true
    → All IsLong db.ranked_chunks
    → get_chunk_protection (database db.dir (save os db disk).1) x y ≡ get_chunk_protection db x y
unfolding get_chunk_protection database
get_chunk_protection-save os db disk x y dirty there good h =
    let mid = saved_props os db.dir db.world_props disk in
    let after = saved_text os db.dir db.ranked_chunks mid in
    let there1 : has_dir db.dir mid ≡ true =
      has_dir-saved_props os db.dir db.dir db.world_props disk ∙ there in
    let there2 : has_dir db.dir after ≡ true =
      has_dir-saved_text os db.dir db.dir db.ranked_chunks mid ∙ there1 in
    ap (λ d. get_chunk_protection (database db.dir d) x y) (disk-save os db disk dirty)
    ∙ rw (there2, database)
        (ap (λ s. contains (pack x y) (parse_chunks s))
            (read_file-saved_text os db.dir db.ranked_chunks mid there1 good)
          ∙ contains-parse_chunks db.ranked_chunks (pack x y) h)
