-- ===== src/Database/Saved/Marks.antt =====
-- The protection of a chunk that is set before the database is saved and opened again.
use owop_server_for_heroku_g.Base.{
  ◌++◌, ℕ, ◌≡◌, refl, ◌∙◌, ◌<◌, ◌^◌, Bool, true, false, ◌&&◌, List, [], ◌∷◌, ◌==◌, if◌then◌else◌,
  All, arith, either,
}
use owop_server_for_heroku_g.Base.Words.{codes}
use owop_server_for_heroku_g.Base.Eq.{nat_eq}
use owop_server_for_heroku_g.Base.Assoc.{contains, emplace, remove}
use owop_server_for_heroku_g.Database.{
  Database, database, save, pack, get_chunk_protection, set_chunk_protection,
}
use owop_server_for_heroku_g.Database.Saved.{IsLong, get_chunk_protection-save}
use owop_server_for_heroku_g.Database.Storage.{Os, Disk, has_dir}
use owop_server_for_heroku_g.Database.Tables.{get_chunk_protection-set_chunk_protection}

emplace-IsLong : (k : ℕ) (s : List ℕ) → IsLong k → All IsLong s → All IsLong (emplace k s)
unfolding emplace
emplace-IsLong k s hk h = either (All IsLong) (contains k s) _ _ h (hk, h)

remove-IsLong : (k : ℕ) (s : List ℕ) → All IsLong s → All IsLong (remove k s)
unfolding remove
remove-IsLong k [] h = tt
remove-IsLong k (j ∷ s) (hj, h) =
    let rest = remove-IsLong k s h in either (All IsLong) (j == k) _ _ rest (hj, rest)

pack-IsLong : (x y : ℕ) → x < 2 ^ 32 → y < 2 ^ 32 → IsLong (pack x y)
pack-IsLong x y hx hy = omega arith

marks-IsLong :
    (db : Database) (x y : ℕ) (state : Bool)
    → x < 2 ^ 32
    → y < 2 ^ 32
    → All IsLong db.ranked_chunks
    → All IsLong (set_chunk_protection db x y state).ranked_chunks
unfolding set_chunk_protection
marks-IsLong db x y true hx hy h =
    emplace-IsLong (pack x y) db.ranked_chunks (pack-IsLong x y hx hy) h
marks-IsLong db x y false hx hy h = remove-IsLong (pack x y) db.ranked_chunks h

-- A chunk whose protection is set to a state has that state after the database is saved and opened again
-- under the same directory, and every other chunk has the protection that it had before. The directory is
-- there, the file can be opened, coordinates are 32 bits, and the protections are numbers of 64 bits.
pub get_chunk_protection-saved :
    (os : Os) (db : Database) (disk : Disk) (x y i j : ℕ) (state : Bool)
    → has_dir db.dir disk ≡ true
    → os.opens (db.dir ++ codes "pchunks.bin") ≡ true
    → All IsLong db.ranked_chunks
    → x < 2 ^ 32
    → y < 2 ^ 32
    → i < 2 ^ 32
    → get_chunk_protection
        (database db.dir (save os (set_chunk_protection db x y state) disk).1)
        i
        j
      ≡ (if x == i && y == j then state else get_chunk_protection db i j)
unfolding set_chunk_protection
get_chunk_protection-saved os db disk x y i j state there good h hx hy hi =
    get_chunk_protection-save os (set_chunk_protection db x y state) disk i j refl there good
      (marks-IsLong db x y state hx hy h)
    ∙ get_chunk_protection-set_chunk_protection db x y i j state hx hi
