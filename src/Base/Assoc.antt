-- ===== src/Base/Assoc.antt =====
-- `std::unordered_map` and `std::unordered_set` as lists in the order of iteration. That order is
-- unspecified in C++; here a new entry comes first.
use mathlib.Core.Path.{◌≡◌, refl, subst, ◌∙◌}
use mathlib.Core.Logic.{inl, inr}
use mathlib.Core.Bool.{Bool, true, false, ◌||◌}
use mathlib.Core.Option.{Option, none, some}
use mathlib.Core.List.{List, [], ◌∷◌, ◌++◌}
use native.Mathlib.Omega.{arith}
use Prim.Native.Nat.{◌+◌, ◌≤◌, ◌<◌}
use owop_server_for_heroku_g.Base.Lists.{length, All}
use owop_server_for_heroku_g.Base.Tests.{
  if◌then◌else◌, Bool-cases, Option-cases, either, maybe, decide,
}
use owop_server_for_heroku_g.Base.Eq.{Eq}

module _ {ℓ κ} {K : Type ℓ} {V : Type κ} ⦃e : Eq K⦄ where
  -- m.find(k)
  unfoldable pub lookup : K → List (K × V) → Option V
  lookup k [] = none
  lookup k ((j, v) ∷ m) = if e.beq j k then some v else lookup k m

  -- m.erase(k)
  unfoldable pub erase : K → List (K × V) → List (K × V)
  erase k [] = []
  erase k ((j, v) ∷ m) = let rest = erase k m in if e.beq j k then rest else (j, v) ∷ rest

  -- m.at(k) = v, for a key that is there.
  unfoldable pub assign : K → V → List (K × V) → List (K × V)
  assign k v [] = []
  assign k v ((j, w) ∷ m) = if e.beq j k then (k, v) ∷ m else (j, w) ∷ assign k v m

  -- m[k] = v
  unfoldable pub insert : K → V → List (K × V) → List (K × V)
  unfolding assign
  insert k v m = elim (lookup k m) [ none ↦ (k, v) ∷ m | some w ↦ assign k v m ]

  pub lookup-erase :
      (k j : K) (m : List (K × V)) → lookup j (erase k m) ≡ (if e.beq k j then none else lookup j m)
  unfolding lookup erase
  lookup-erase k j [] = ground arith
  lookup-erase k j ((i, v) ∷ m) =
      ground (arith, lookup-erase k j m, e.beq_iff i k, e.beq_iff i j, e.beq_iff k j)

  pub lookup-assign :
      (k j : K) (v w : V) (m : List (K × V))
      → lookup k m ≡ some w
      → lookup j (assign k v m) ≡ (if e.beq k j then some v else lookup j m)
  unfolding lookup assign
  lookup-assign k j v w [] h = cc
  lookup-assign k j v w ((i, u) ∷ m) h =
      ground (arith, lookup-assign k j v w m, e.beq_iff i k, e.beq_iff i j, e.beq_iff k j)

  pub lookup-assign_ne :
      (k j : K) (v : V) (m : List (K × V))
      → e.beq k j ≡ false
      → lookup j (assign k v m) ≡ lookup j m
  unfolding lookup assign
  lookup-assign_ne k j v [] h = refl
  lookup-assign_ne k j v ((i, u) ∷ m) h =
      ground (arith, lookup-assign_ne k j v m, e.beq_iff i k, e.beq_iff i j, e.beq_iff k j)

  pub lookup-erase_ne :
      (k j : K) (m : List (K × V)) → e.beq k j ≡ false → lookup j (erase k m) ≡ lookup j m
  lookup-erase_ne k j m h = lookup-erase k j m ∙ rw h refl

  pub lookup-insert :
      (k j : K) (v : V) (m : List (K × V))
      → lookup j (insert k v m) ≡ (if e.beq k j then some v else lookup j m)
  unfolding insert lookup
  lookup-insert k j v m = elim (Option-cases (lookup k m)) [
    | inl e ↦ rw (e, insert) refl
    | inr (w, e) ↦ rw (e, insert) (lookup-assign k j v w m e)
  ]

  pub length-assign : (k : K) (v : V) (m : List (K × V)) → length (assign k v m) ≡ length m
  unfolding assign
  length-assign k v [] = refl
  length-assign k v ((j, w) ∷ m) = ground (arith, length-assign k v m)

  pub length-erase_le : (k : K) (m : List (K × V)) → length (erase k m) ≤ length m
  unfolding erase
  length-erase_le k [] = omega arith
  length-erase_le k ((j, w) ∷ m) = ground (arith, length-erase_le k m)

  pub length-insert_le : (k : K) (v : V) (m : List (K × V)) → length (insert k v m) ≤ length m + 1
  unfolding insert
  length-insert_le k v m = elim (Option-cases (lookup k m)) [
    | inl missing ↦ rw (missing, insert) (omega arith)
    | inr (w, there) ↦ rw (there, insert) (omega (arith, length-assign k v m))
  ]

  pub lookup-append :
      (k : K) (m n : List (K × V))
      → lookup k (m ++ n) ≡ elim (lookup k m) [ none ↦ lookup k n | some v ↦ some v ]
  unfolding lookup
  lookup-append k [] n = refl
  lookup-append k ((j, v) ∷ m) n = ground (arith, lookup-append k m n)

  pub length-erase_lt :
      (k : K) (v : V) (m : List (K × V)) → lookup k m ≡ some v → length (erase k m) < length m
  unfolding lookup erase
  length-erase_lt k v [] h = absurd (cc)
  length-erase_lt k v ((j, w) ∷ m) h = ground (arith, length-erase_lt k v m, length-erase_le k m)

  -- Every entry is the one that is found under its key.
  abbrev pub ListedIn : List (K × V) → List (K × V) → Type κ
  ListedIn n m = All (λ kv. lookup kv.0 n ≡ some kv.1) m

  pub erase-ListedIn :
      (k : K) (n m : List (K × V)) → ListedIn n m → ListedIn (erase k n) (erase k m)
  unfolding erase
  erase-ListedIn k n [] h = tt
  erase-ListedIn k n ((j, v) ∷ m) (hv, h) =
      let rest = erase-ListedIn k n m h in
      decide (ListedIn (erase k n)) (e.beq j k) _ _ (λ same. rest)
        (λ other.
          let other' : e.beq k j ≡ false = ground (arith, e.beq_iff j k, e.beq_iff k j) in
          (lookup-erase k j n ∙ rw other' hv, rest))

  pub erase-missing : (k : K) (m : List (K × V)) → lookup k m ≡ none → erase k m ≡ m
  unfolding lookup erase
  erase-missing k [] h = refl
  erase-missing k ((j, v) ∷ m) h = ground (arith, erase-missing k m)

  pub erase-assign : (k : K) (v : V) (m : List (K × V)) → erase k (assign k v m) ≡ erase k m
  unfolding erase assign
  erase-assign k v [] = refl
  erase-assign k v ((j, w) ∷ m) = ground (arith, erase-assign k v m, e.beq_iff j k, e.beq_iff k k)

module _ {κ μ} {V : Type κ} (P : V → Type μ) where
  abbrev pub Maybe : Option V → Type μ
  Maybe none = Unit
  Maybe (some v) = P v

module _ {ℓ κ μ} {K : Type ℓ} {V : Type κ} ⦃e : Eq K⦄ (P : V → Type μ) where
  abbrev pub AllValues : List (K × V) → Type μ
  AllValues = All λ kv. P kv.1

  pub erase-AllValues : (k : K) (m : List (K × V)) → AllValues m → AllValues (erase k m)
  unfolding erase
  erase-AllValues k [] h = h
  erase-AllValues k ((j, v) ∷ m) (hv, h) =
      either AllValues (e.beq j k) _ _ (erase-AllValues k m h) (hv, erase-AllValues k m h)

  pub assign-AllValues :
      (k : K) (v : V) (m : List (K × V)) → P v → AllValues m → AllValues (assign k v m)
  unfolding assign
  assign-AllValues k v [] p h = h
  assign-AllValues k v ((j, w) ∷ m) p (hw, h) =
      either AllValues (e.beq j k) _ _ (p, h) (hw, assign-AllValues k v m p h)

  pub insert-AllValues :
      (k : K) (v : V) (m : List (K × V)) → P v → AllValues m → AllValues (insert k v m)
  unfolding insert
  insert-AllValues k v m p h =
      maybe AllValues (lookup k m) _ _ (p, h) (λ w there. assign-AllValues k v m p h)

  pub lookup-Maybe : (k : K) (m : List (K × V)) → AllValues m → Maybe P (lookup k m)
  unfolding lookup
  lookup-Maybe k [] h = tt
  lookup-Maybe k ((j, w) ∷ m) (hw, h) =
      either (Maybe P) (e.beq j k) (some w) (lookup k m) hw (lookup-Maybe k m h)

  pub lookup-AllValues :
      (k : K) (v : V) (m : List (K × V)) → AllValues m → lookup k m ≡ some v → P v
  lookup-AllValues k v m h there = subst (Maybe P) there (lookup-Maybe k m h)

module _ {ℓ} {K : Type ℓ} ⦃e : Eq K⦄ where
  -- s.find(k) != s.end()
  unfoldable pub contains : K → List K → Bool
  contains k [] = false
  contains k (j ∷ s) = e.beq j k || contains k s

  -- s.emplace(k)
  unfoldable pub emplace : K → List K → List K
  emplace k s = if contains k s then s else k ∷ s

  -- s.erase(k)
  unfoldable pub remove : K → List K → List K
  remove k [] = []
  remove k (j ∷ s) = let rest = remove k s in if e.beq j k then rest else j ∷ rest

  contains_old :
      (k j : K) (s : List K) → contains k s ≡ true → contains j s ≡ (e.beq k j || contains j s)
  contains_old k j s h = elim (Bool-cases (e.beq k j)) [
    | inl same ↦ rw same (rw (← (e.beq_iff k j).0 same) h)
    | inr other ↦ rw other refl
  ]

  pub contains-emplace :
      (k j : K) (s : List K) → contains j (emplace k s) ≡ (e.beq k j || contains j s)
  unfolding contains emplace
  contains-emplace k j s = elim (Bool-cases (contains k s)) [
    | inl old ↦ rw old (contains_old k j s old)
    | inr new ↦ rw new refl
  ]

  pub contains-remove :
      (k j : K) (s : List K) → contains j (remove k s) ≡ (if e.beq k j then false else contains j s)
  unfolding contains remove
  contains-remove k j [] = ground arith
  contains-remove k j (i ∷ s) =
      ground (arith, contains-remove k j s, e.beq_iff i k, e.beq_iff i j, e.beq_iff k j)

  pub length-emplace_le : (k : K) (s : List K) → length (emplace k s) ≤ length s + 1
  unfolding emplace
  length-emplace_le k s = ground arith

  pub length-remove_le : (k : K) (s : List K) → length (remove k s) ≤ length s
  unfolding remove
  length-remove_le k [] = omega arith
  length-remove_le k (j ∷ s) = ground (arith, length-remove_le k s)
