-- ===== src/Database/PropMap.antt =====
-- `worldProps` of database.cpp, a `std::map` in the order of its keys, and its text in props.txt.
pub mod RoundTrip
use owop_server_for_heroku_g.Base.{
  ◌≡◌, refl, Bool, true, false, Option, none, some, List, [], ◌∷◌, ◌++◌, arith, ltb, ◌==◌,
  if◌then◌else◌,
}
use owop_server_for_heroku_g.Base.Words.{Bytes}
use owop_server_for_heroku_g.Base.Eq.{eq_bytes, eq_bytes_iff}

abbrev pub Props : Type 0
Props = List (Bytes × Bytes)

-- `std::string::operator<`.
pub less : Bytes → Bytes → Bool
less xs [] = false
less [] (y ∷ ys) = true
less (x ∷ xs) (y ∷ ys) = if ltb x y then true else if x == y then less xs ys else false

unfoldable pub find_prop : Bytes → Props → Option Bytes
find_prop k [] = none
find_prop k ((j, v) ∷ m) = if eq_bytes j k then some v else find_prop k m

unfoldable pub put_prop : Bytes → Bytes → Props → Props
unfolding less
put_prop k v [] = (k, v) ∷ []
put_prop k v ((j, w) ∷ m) =
    if eq_bytes j k
    then (k, v) ∷ m
    else if less k j
    then (k, v) ∷ (j, w) ∷ m
    else (j, w) ∷ put_prop k v m

unfoldable pub drop_prop : Bytes → Props → Props
drop_prop k [] = []
drop_prop k ((j, v) ∷ m) = let rest = drop_prop k m in if eq_bytes j k then rest else (j, v) ∷ rest

pub find_prop-put_prop :
    (k j v : Bytes) (m : Props)
    → find_prop j (put_prop k v m) ≡ (if eq_bytes k j then some v else find_prop j m)
unfolding find_prop put_prop
find_prop-put_prop k j v [] = refl
find_prop-put_prop k j v ((i, w) ∷ m) =
    ground (arith, eq_bytes_iff k j, eq_bytes_iff i k, eq_bytes_iff i j, find_prop-put_prop k j v m)

pub find_prop-drop_prop :
    (k j : Bytes) (m : Props)
    → find_prop j (drop_prop k m) ≡ (if eq_bytes k j then none else find_prop j m)
unfolding find_prop drop_prop
find_prop-drop_prop k j [] = ground arith
find_prop-drop_prop k j ((i, w) ∷ m) =
    ground (arith, eq_bytes_iff k j, eq_bytes_iff i k, eq_bytes_iff i j, find_prop-drop_prop k j m)

-- `file << kv.first << " " << kv.second << std::endl`
unfoldable pub print_props : Props → Bytes
print_props [] = []
print_props ((k, v) ∷ m) = k ++ (32 ∷ (v ++ (10 ∷ print_props m)))

-- prop.find_first_of(' '), and the two parts around it; `none` if there is no space.
pub cut_space : Bytes → Bytes → Option (Bytes × Bytes)
cut_space key [] = none
cut_space key (c ∷ s) = elim (c == 32) [
  | true ↦ some (key, s)
  | false ↦ cut_space (key ++ c ∷ []) s
]

-- One line of the file.
pub parse_line : Bytes → Props → Props
parse_line prop m = elim (cut_space [] prop) [ none ↦ m | some (k, v) ↦ put_prop k v m ]

-- The loop over std::getline; `line` is what was read of the current line.
pub parse_loop : Bytes → Bytes → Props → Props
parse_loop [] line m = parse_line line m
parse_loop (c ∷ s) line m = elim (c == 10) [
  | true ↦ parse_loop s [] (parse_line line m)
  | false ↦ parse_loop s (line ++ c ∷ []) m
]

unfoldable pub parse_props : Bytes → Props
unfolding parse_loop parse_line cut_space
parse_props s = parse_loop s [] []
