-- ===== src/Base/Tests.antt =====
-- Boolean tests on the native numbers, the conditional and case lemmas.
use Prim.Native.Nat.{ℕ, ◌≤◌, ◌<◌, compare, Ordering}
use mathlib.Core.Path.{◌≡◌, refl}
use mathlib.Core.Logic.{◌↔◌, ◌⊎◌, inl, inr}
use mathlib.Core.Bool.{Bool, true, false, ◌&&◌, ◌||◌}
use mathlib.Core.Option.{Option, none, some}
use native.Mathlib.Omega.{arith}

abbrev pub ltb : ℕ → ℕ → Bool
ltb a b = elim (compare a b) [ Ordering.lt ↦ true | _ ↦ false ]

abbrev pub leb : ℕ → ℕ → Bool
leb a b = elim (compare a b) [ Ordering.gt ↦ false | _ ↦ true ]

infix 50 ◌==◌
abbrev pub ◌==◌ : ℕ → ℕ → Bool
a == b = elim (compare a b) [ Ordering.eq ↦ true | _ ↦ false ]

infix 1 if◌then◌else◌
abbrev pub if◌then◌else◌ {ℓ} : {A : Type ℓ} → Bool → A → A → A
if true then x else y = x
if false then x else y = y

pub ltb→lt : (a b : ℕ) → ltb a b ≡ true → a < b
ltb→lt a b h = ground arith

pub leb→lt : (a b : ℕ) → leb a b ≡ false → b < a
leb→lt a b h = ground arith

pub leb→le : (a b : ℕ) → leb a b ≡ true → a ≤ b
leb→le a b h = ground arith

pub lt→ltb : (a b : ℕ) → a < b → ltb a b ≡ true
lt→ltb a b h = ground arith

pub ltb→le : (a b : ℕ) → ltb a b ≡ false → b ≤ a
ltb→le a b h = ground arith

pub ==_iff : (a b : ℕ) → ((a == b) ≡ true) ↔ (a ≡ b)
==_iff a b = ground arith

pub Bool-cases : (b : Bool) → (b ≡ true) ⊎ (b ≡ false)
Bool-cases true = inl refl
Bool-cases false = inr refl

pub Option-cases {ℓ} : {A : Type ℓ} (o : Option A) → (o ≡ none) ⊎ ((a : A) × (o ≡ some a))
Option-cases none = inl refl
Option-cases (some a) = inr (a, refl)

pub or_swap : (a b c : Bool) → (a || (b || c)) ≡ ((b || a) || c)
or_swap true true c = refl
or_swap true false c = refl
or_swap false true c = refl
or_swap false false c = refl

pub or_none : (a : Bool) → (a || false) ≡ a
or_none true = refl
or_none false = refl

-- What holds in both branches of a test holds after it.
pub either {ℓ κ} :
    {T : Type ℓ} (Q : T → Type κ) (b : Bool) (s t : T) → Q s → Q t → Q (if b then s else t)
either Q true s t p q = p
either Q false s t p q = q

pub maybe {ℓ κ μ} :
    {T : Type ℓ} (Q : T → Type κ) {B : Type μ} (o : Option B) (s : T) (f : B → T)
    → Q s
    → ((b : B) → o ≡ some b → Q (f b))
    → Q (elim o as (λ x. T) [ none ↦ s | some b ↦ f b ])
maybe Q none s f p q = p
maybe Q (some b) s f p q = q b refl

pub decide {ℓ κ} :
    {T : Type ℓ} (Q : T → Type κ) (b : Bool) (s t : T)
    → (b ≡ true → Q s)
    → (b ≡ false → Q t)
    → Q (if b then s else t)
decide Q true s t p q = p refl
decide Q false s t p q = q refl

pub and_right : (a b : Bool) → (a && b) ≡ true → b ≡ true
and_right true b h = h
and_right false b h = absurd (cc)

pub examine {ℓ κ μ} :
    {T : Type ℓ} (Q : T → Type κ) {B : Type μ} (o : Option B) (s : T) (f : B → T)
    → (o ≡ none → Q s)
    → ((b : B) → o ≡ some b → Q (f b))
    → Q (elim o as (λ x. T) [ none ↦ s | some b ↦ f b ])
examine Q none s f p q = p refl
examine Q (some b) s f p q = q b refl
