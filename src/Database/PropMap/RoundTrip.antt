-- ===== src/Database/PropMap/RoundTrip.antt =====
-- Reading back the text of props.txt.
use owop_server_for_heroku_g.Base.{
  ◌≡◌, refl, ap, sym, ◌∙◌, true, false, Option, none, some, [], ◌∷◌, ◌++◌, ◌==◌, arith,
  if◌then◌else◌, All, All-append, append_assoc, append-nil, Bool-cases, inl, inr, subst, either,
  decide,
}
use owop_server_for_heroku_g.Base.Words.{Bytes}
use owop_server_for_heroku_g.Base.Eq.{eq_bytes, eq_bytes_iff}
use owop_server_for_heroku_g.Database.PropMap.{
  Props, less, find_prop, put_prop, drop_prop, find_prop-put_prop, print_props, cut_space,
  parse_line, parse_loop, parse_props,
}

-- A key without a space, and a value, neither with an end of line in it.
pub record IsEntry (k v : Bytes) : Type 0 where
  pub word : All (λ c. (c == 32) ≡ false) k
  pub key_line : All (λ c. (c == 10) ≡ false) k
  pub value_line : All (λ c. (c == 10) ≡ false) v

-- Every key is behind this one in the order of the map.
abbrev Above : Bytes → Props → Type 0
Above k = All λ kv. less k kv.0 ≡ true

-- Entries in the order of their keys, which are different.
unfoldable pub IsText : Props → Type 0
IsText [] = Unit
IsText ((k, v) ∷ m) = IsEntry k v × Above k m × IsText m

eq_bytes_sym : (xs ys : Bytes) → eq_bytes xs ys ≡ false → eq_bytes ys xs ≡ false
eq_bytes_sym xs ys h = ground (arith, eq_bytes_iff xs ys, eq_bytes_iff ys xs)

less_irrefl : (xs : Bytes) → less xs xs ≡ false
unfolding less
less_irrefl [] = refl
less_irrefl (x ∷ xs) = ground (arith, less_irrefl xs)

less_trans : (xs ys zs : Bytes) → less xs ys ≡ true → less ys zs ≡ true → less xs zs ≡ true
unfolding less
less_trans xs ys [] h k = absurd (cc)
less_trans xs [] (z ∷ zs) h k = absurd (cc)
less_trans [] (y ∷ ys) (z ∷ zs) h k = refl
less_trans (x ∷ xs) (y ∷ ys) (z ∷ zs) h k = ground (arith, less_trans xs ys zs)

less_total : (xs ys : Bytes) → eq_bytes xs ys ≡ false → less xs ys ≡ false → less ys xs ≡ true
unfolding less eq_bytes
less_total [] [] e h = absurd (cc)
less_total [] (y ∷ ys) e h = absurd (cc)
less_total (x ∷ xs) [] e h = refl
less_total (x ∷ xs) (y ∷ ys) e h = ground (arith, less_total xs ys)

Above-less : (b k : Bytes) (m : Props) → less b k ≡ true → Above k m → Above b m
Above-less b k [] h a = tt
Above-less b k ((j, w) ∷ m) h (hj, a) = (less_trans b k j h hj, Above-less b k m h a)

-- A key that stands before all others is not among them.
find_prop-Above : (k : Bytes) (m : Props) → Above k m → find_prop k m ≡ none
unfolding find_prop
find_prop-Above k [] h = refl
find_prop-Above k ((j, w) ∷ m) (hj, h) = elim (Bool-cases (eq_bytes j k)) [
  | inl same ↦
      let clash = sym (less_irrefl k) ∙ ap (less k) (sym ((eq_bytes_iff j k).0 same)) ∙ hj in
      absurd (cc)
  | inr other ↦ rw (other, find_prop) (find_prop-Above k m h)
]

put_prop-Above :
    (b k v : Bytes) (m : Props) → less b k ≡ true → Above b m → Above b (put_prop k v m)
unfolding put_prop
put_prop-Above b k v [] h a = (h, tt)
put_prop-Above b k v ((j, w) ∷ m) h (hj, a) =
    either (Above b) (eq_bytes j k) _ _ (h, a)
      (either (Above b) (less k j) _ _ (h, (hj, a)) (hj, put_prop-Above b k v m h a))

drop_prop-Above : (b k : Bytes) (m : Props) → Above b m → Above b (drop_prop k m)
unfolding drop_prop
drop_prop-Above b k [] a = tt
drop_prop-Above b k ((j, w) ∷ m) (hj, a) =
    let rest = drop_prop-Above b k m a in either (Above b) (eq_bytes j k) _ _ rest (hj, rest)

parse_loop-line :
    (w s line : Bytes) (m : Props)
    → All (λ c. (c == 10) ≡ false) w
    → parse_loop (w ++ (10 ∷ s)) line m ≡ parse_loop s [] (parse_line (line ++ w) m)
unfolding parse_loop
parse_loop-line [] s line m h = ap (λ l. parse_loop s [] (parse_line l m)) (sym (append-nil line))
parse_loop-line (c ∷ w) s line m (hc, h) =
    rw (hc, parse_loop)
      (parse_loop-line w s (line ++ c ∷ []) m h
        ∙ ap (λ l. parse_loop s [] (parse_line l m)) (append_assoc line (c ∷ []) w))

cut_space-word :
    (k v key : Bytes)
    → All (λ c. (c == 32) ≡ false) k
    → cut_space key (k ++ (32 ∷ v)) ≡ some (key ++ k, v)
unfolding cut_space
cut_space-word [] v key h = ap (λ l. some (l, v)) (sym (append-nil key))
cut_space-word (c ∷ k) v key (hc, h) =
    rw (hc, cut_space)
      (cut_space-word k v (key ++ c ∷ []) h ∙ ap (λ l. some (l, v)) (append_assoc key (c ∷ []) k))

parse_line-entry :
    (k v : Bytes) (m : Props)
    → All (λ c. (c == 32) ≡ false) k
    → parse_line (k ++ (32 ∷ v)) m ≡ put_prop k v m
unfolding parse_line
parse_line-entry k v m h = rw (cut_space-word k v [] h, parse_line) refl

parse_loop-entry :
    (k v s : Bytes) (m : Props)
    → IsEntry k v
    → parse_loop (k ++ (32 ∷ (v ++ (10 ∷ s)))) [] m ≡ parse_loop s [] (put_prop k v m)
parse_loop-entry k v s m e =
    let line : All (λ c. (c == 10) ≡ false) (k ++ (32 ∷ v)) =
      All-append (λ c. (c == 10) ≡ false) k (32 ∷ v) e.key_line (refl, e.value_line) in
    ap (λ t. parse_loop t [] m) (sym (append_assoc k (32 ∷ v) (10 ∷ s)))
    ∙ parse_loop-line (k ++ (32 ∷ v)) s [] m line
    ∙ ap (parse_loop s []) (parse_line-entry k v m e.word)

-- The first of two answers.
abbrev either_prop : Option Bytes → Option Bytes → Option Bytes
either_prop none other = other
either_prop (some v) other = some v

either_prop-none : (o : Option Bytes) → either_prop o none ≡ o
either_prop-none none = refl
either_prop-none (some v) = refl

either_prop-head :
    (k j v : Bytes) (m : Props) (other : Option Bytes)
    → find_prop k m ≡ none
    → either_prop (find_prop j m) (if eq_bytes k j then some v else other)
      ≡ either_prop (if eq_bytes k j then some v else find_prop j m) other
either_prop-head k j v m other fresh = elim (Bool-cases (eq_bytes k j)) [
  | inl same ↦
      let missing : find_prop j m ≡ none =
        ap (λ i. find_prop i m) (sym ((eq_bytes_iff k j).0 same)) ∙ fresh in
      rw (same, missing) refl
  | inr other_key ↦ rw other_key refl
]

find_prop-parse_loop :
    (m : Props) (j : Bytes) (acc : Props)
    → IsText m
    → find_prop j (parse_loop (print_props m) [] acc)
      ≡ either_prop (find_prop j m) (find_prop j acc)
unfolding IsText print_props find_prop parse_loop parse_line cut_space
find_prop-parse_loop [] j acc h = refl
find_prop-parse_loop ((k, v) ∷ m) j acc (e, above, h) =
    ap (find_prop j) (parse_loop-entry k v (print_props m) acc e)
    ∙ find_prop-parse_loop m j (put_prop k v acc) h
    ∙ ap (either_prop (find_prop j m)) (find_prop-put_prop k j v acc)
    ∙ either_prop-head k j v m (find_prop j acc) (find_prop-Above k m above)

-- What is found in the entries that the text of others is read to, is found in these.
pub find_prop-parse_props :
    (m : Props) (j : Bytes) → IsText m → find_prop j (parse_props (print_props m)) ≡ find_prop j m
unfolding parse_props find_prop
find_prop-parse_props m j h = find_prop-parse_loop m j [] h ∙ either_prop-none (find_prop j m)

pub put_prop-IsText : (k v : Bytes) (m : Props) → IsEntry k v → IsText m → IsText (put_prop k v m)
unfolding IsText put_prop
put_prop-IsText k v [] e h = (e, tt, tt)
put_prop-IsText k v ((j, w) ∷ m) e (d, above, h) =
    decide IsText (eq_bytes j k) _ _
      (λ same. (e, subst (λ i. Above i m) ((eq_bytes_iff j k).0 same) above, h))
      (λ other.
        decide IsText (less k j) _ _
          (λ lower. (e, (lower, Above-less k j m lower above), (d, above, h)))
          (λ higher. (
            d,
            put_prop-Above j k v m (less_total k j (eq_bytes_sym j k other) higher) above,
            put_prop-IsText k v m e h,
          )))

pub drop_prop-IsText : (k : Bytes) (m : Props) → IsText m → IsText (drop_prop k m)
unfolding IsText drop_prop
drop_prop-IsText k [] h = tt
drop_prop-IsText k ((j, w) ∷ m) (d, above, h) =
    let rest = drop_prop-IsText k m h in
    either IsText (eq_bytes j k) _ _ rest (d, drop_prop-Above j k m above, rest)
