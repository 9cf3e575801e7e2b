-- ===== src/Database/Storage.antt =====
-- The disk as database.cpp uses it: directories, files, and the text of pchunks.bin.
use owop_server_for_heroku_g.Base.{
  ℕ, ◌+◌, ◌*◌, ◌/◌, ◌%◌, ◌^◌, Bool, true, false, ◌&&◌, none, some, List, [], ◌∷◌, ◌++◌, ◌==◌,
  if◌then◌else◌, length,
}
use owop_server_for_heroku_g.Base.Words.{Bytes, le32}
use owop_server_for_heroku_g.Base.Eq.{bytes_eq, nat_eq}
use owop_server_for_heroku_g.Base.Assoc.{lookup, insert, erase, contains, emplace}

-- What the operating system answers: mkdir(dir) == 0, and whether opening a file to write to it gives a
-- good stream.
pub record Os : Type 0 where
  pub mkdir : Bytes → Bool
  pub opens : Bytes → Bool

pub record Disk : Type 0 where
  pub dirs : List Bytes
  pub files : List (Bytes × Bytes)

unfoldable pub has_dir : Bytes → Disk → Bool
has_dir dir disk = contains dir disk.dirs

unfoldable pub file_exists : Bytes → Disk → Bool
file_exists path disk = elim (lookup path disk.files) [ none ↦ false | some s ↦ true ]

-- A file that is not there reads as an empty one.
unfoldable pub read_file : Bytes → Disk → Bytes
read_file path disk = elim (lookup path disk.files) [ none ↦ [] | some s ↦ s ]

-- std::ofstream with `trunc`, and what is written to it: nothing happens if there is no directory or the
-- stream is not good.
unfoldable pub write_file : Os → Bytes → Bytes → Bytes → Disk → Disk
unfolding has_dir
write_file os dir path s disk =
    if has_dir dir disk && os.opens path
    then record disk { files = insert path s disk.files }
    else disk

-- std::remove
unfoldable pub remove_file : Bytes → Disk → Disk
remove_file path disk = record disk { files = erase path disk.files }

-- A `uint64_t` as it lies in memory.
abbrev pub le64 : ℕ → Bytes
le64 n = le32 (n % 2 ^ 32) ++ le32 (n / 2 ^ 32)

unfoldable pub print_chunks : List ℕ → Bytes
print_chunks [] = []
print_chunks (n ∷ s) = le64 n ++ print_chunks s

abbrev pub word32 : ℕ → ℕ → ℕ → ℕ → ℕ
word32 a b c d = a + b * 2 ^ 8 + c * 2 ^ 16 + d * 2 ^ 24

unfoldable pub read_words : Bytes → List ℕ → List ℕ
read_words (a ∷ b ∷ c ∷ d ∷ e ∷ f ∷ g ∷ h ∷ s) m =
    read_words s (emplace (word32 a b c d + word32 e f g h * 2 ^ 32) m)
read_words s m = m

-- A file whose size is no multiple of 8 is ignored.
unfoldable pub parse_chunks : Bytes → List ℕ
unfolding read_words
parse_chunks s = if length s % 8 == 0 then read_words s [] else []
