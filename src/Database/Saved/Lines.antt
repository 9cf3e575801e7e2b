-- ===== src/Database/Saved/Lines.antt =====
-- The properties of a database after it is saved and opened again.
use owop_server_for_heroku_g.Base.{
  ℕ, ◌≡◌, refl, ap, ◌∙◌, ◌&&◌, true, false, none, some, List, [], ◌∷◌, ◌++◌, either, arith,
  if◌then◌else◌,
}
use owop_server_for_heroku_g.Base.Words.{Bytes, codes}
use owop_server_for_heroku_g.Base.Eq.{bytes_eq, eq_bytes}
use owop_server_for_heroku_g.Base.Assoc.{lookup-insert, lookup-erase_ne}
use owop_server_for_heroku_g.Database.{Database, database, save, get_prop, set_prop}
use owop_server_for_heroku_g.Database.PropMap.{Props, find_prop, parse_props, print_props}
use owop_server_for_heroku_g.Database.PropMap.RoundTrip.{
  IsEntry, IsText, find_prop-parse_props, put_prop-IsText, drop_prop-IsText,
}
use owop_server_for_heroku_g.Database.Saved.{
  saved_text, saved_props, has_dir-saved_text, has_dir-saved_props, disk-save, read_file-write_file,
  read_file-remove_file,
}
use owop_server_for_heroku_g.Database.Storage.{
  Os, Disk, has_dir, read_file, write_file, remove_file, print_chunks,
}
use owop_server_for_heroku_g.Database.Tables.{get_prop-set_prop}

eq_bytes-append : (dir xs ys : Bytes) → eq_bytes (dir ++ xs) (dir ++ ys) ≡ eq_bytes xs ys
unfolding eq_bytes
eq_bytes-append [] xs ys = refl
eq_bytes-append (c ∷ dir) xs ys = ground (arith, eq_bytes-append dir xs ys)

read_file-write_other :
    (os : Os) (dir path other s : Bytes) (disk : Disk)
    → eq_bytes path other ≡ false
    → read_file other (write_file os dir path s disk) ≡ read_file other disk
unfolding write_file read_file
read_file-write_other os dir path other s disk apart =
    either (λ d. read_file other d ≡ read_file other disk) (has_dir dir disk && os.opens path) _ _
      (rw (lookup-insert path other s disk.files, apart, read_file) refl) refl

read_file-remove_other :
    (path other : Bytes) (disk : Disk)
    → eq_bytes path other ≡ false
    → read_file other (remove_file path disk) ≡ read_file other disk
unfolding remove_file read_file
read_file-remove_other path other disk apart =
    rw (lookup-erase_ne path other disk.files apart, read_file) refl

props_apart :
    (dir : Bytes) → eq_bytes (dir ++ codes "pchunks.bin") (dir ++ codes "props.txt") ≡ false
unfolding codes eq_bytes
props_apart dir = eq_bytes-append dir (codes "pchunks.bin") (codes "props.txt") ∙ refl

-- The file of the protections is another one.
props-saved_text :
    (os : Os) (dir : Bytes) (l : List ℕ) (disk : Disk)
    → read_file (dir ++ codes "props.txt") (saved_text os dir l disk)
      ≡ read_file (dir ++ codes "props.txt") disk
unfolding saved_text
props-saved_text os dir [] disk =
    read_file-remove_other (dir ++ codes "pchunks.bin") (dir ++ codes "props.txt") disk
      (props_apart dir)
props-saved_text os dir (n ∷ l) disk =
    read_file-write_other os dir (dir ++ codes "pchunks.bin") (dir ++ codes "props.txt")
      (print_chunks (n ∷ l)) disk (props_apart dir)

read_file-saved_props :
    (os : Os) (dir : Bytes) (m : Props) (disk : Disk)
    → has_dir dir disk ≡ true
    → os.opens (dir ++ codes "props.txt") ≡ true
    → read_file (dir ++ codes "props.txt") (saved_props os dir m disk) ≡ print_props m
unfolding saved_props print_props
read_file-saved_props os dir [] disk there good =
    read_file-remove_file (dir ++ codes "props.txt") disk
read_file-saved_props os dir (kv ∷ m) disk there good =
    read_file-write_file os dir (dir ++ codes "props.txt") (print_props (kv ∷ m)) disk there good

get_prop-save :
    (os : Os) (db : Database) (disk : Disk) (key defval : Bytes)
    → db.changed_props_or_protects ≡ true
    → has_dir db.dir disk ≡ true
    → os.opens (db.dir ++ codes "props.txt") ≡ true
    → IsText db.world_props
    → get_prop (database db.dir (save os db disk).1) key defval ≡ get_prop db key defval
unfolding get_prop database
get_prop-save os db disk key defval dirty there good h =
    let mid = saved_props os db.dir db.world_props disk in
    let after = saved_text os db.dir db.ranked_chunks mid in
    let there2 : has_dir db.dir after ≡ true =
      has_dir-saved_text os db.dir db.dir db.ranked_chunks mid
      ∙ has_dir-saved_props os db.dir db.dir db.world_props disk
      ∙ there in
    let answer : Props → Bytes =
      λ m. elim (find_prop key m) as (λ x. Bytes) [ none ↦ defval | some v ↦ v ] in
    ap (λ d. get_prop (database db.dir d) key defval) (disk-save os db disk dirty)
    ∙ rw (there2, database)
        (ap (λ s. answer (parse_props s))
            (props-saved_text os db.dir db.ranked_chunks mid
              ∙ read_file-saved_props os db.dir db.world_props disk there good)
          ∙ ap (λ o. elim o as (λ x. Bytes) [ none ↦ defval | some v ↦ v ])
              (find_prop-parse_props db.world_props key h))

set_prop-IsText :
    (db : Database) (key value : Bytes)
    → IsText db.world_props
    → IsEntry key value
    → IsText (set_prop db key value).world_props
unfolding set_prop
set_prop-IsText db key [] h e = drop_prop-IsText key db.world_props h
set_prop-IsText db key (c ∷ more) h e = put_prop-IsText key (c ∷ more) db.world_props e h

-- A property that is set is got under its key after the database is saved and opened again under the
-- same directory, or the caller's default if it is set to the empty text, and the other properties are
-- got as before. The directory is there, the file can be opened, the properties are in the order of their keys, no key has a
-- space in it, and neither a key nor a value has an end of line.
pub get_prop-saved :
    (os : Os) (db : Database) (disk : Disk) (key value j defval : Bytes)
    → has_dir db.dir disk ≡ true
    → os.opens (db.dir ++ codes "props.txt") ≡ true
    → IsText db.world_props
    → IsEntry key value
    → get_prop (database db.dir (save os (set_prop db key value) disk).1) j defval ≡ (
        if eq_bytes key j
        then (elim value as (λ x. Bytes) [ [] ↦ defval | c ∷ more ↦ c ∷ more ])
        else get_prop db j defval)
unfolding set_prop
get_prop-saved os db disk key value j defval there good h e =
    get_prop-save os (set_prop db key value) disk j defval refl there good
      (set_prop-IsText db key value h e)
    ∙ get_prop-set_prop db key j value defval
