-- ===== src/Database/Tables.antt =====
-- The properties and the protections of a database as tables: what is set is got.
use owop_server_for_heroku_g.Base.{
  ℕ, ◌≡◌, refl, ap, ◌∙◌, ◌^◌, ◌<◌, Bool, true, false, ◌&&◌, ◌||◌, Option, none, some, [], ◌∷◌, ◌==◌,
  if◌then◌else◌, arith,
}
use owop_server_for_heroku_g.Base.Words.{Bytes}
use owop_server_for_heroku_g.Base.Eq.{nat_eq, eq_bytes}
use owop_server_for_heroku_g.Base.Assoc.{contains, contains-emplace, contains-remove}
use owop_server_for_heroku_g.Database.{
  Database, pack, set_chunk_protection, get_chunk_protection, get_prop, set_prop,
}
use owop_server_for_heroku_g.Database.PropMap.{find_prop, find_prop-put_prop, find_prop-drop_prop}

default-if :
    (b : Bool) (o p : Option Bytes) (d : Bytes)
    → (elim (if b then o else p) as (λ x. Bytes) [ none ↦ d | some v ↦ v ]) ≡ (
        if b
        then (elim o as (λ x. Bytes) [ none ↦ d | some v ↦ v ])
        else (elim p as (λ x. Bytes) [ none ↦ d | some v ↦ v ]))
default-if true o p d = refl
default-if false o p d = refl

or-if : (a b : Bool) → (a || b) ≡ (if a then true else b)
or-if true b = refl
or-if false b = refl

-- A property that is set is got under its key, and no other is changed; setting it to the empty text
-- deletes it, so that the default of the caller is got again.
pub get_prop-set_prop :
    (db : Database) (key j value defval : Bytes)
    → get_prop (set_prop db key value) j defval ≡ (
        if eq_bytes key j
        then (elim value as (λ x. Bytes) [ [] ↦ defval | c ∷ more ↦ c ∷ more ])
        else get_prop db j defval)
unfolding get_prop set_prop
get_prop-set_prop db key j [] defval =
    ap (λ o. elim o as (λ x. Bytes) [ none ↦ defval | some v ↦ v ])
      (find_prop-drop_prop key j db.world_props)
    ∙ default-if (eq_bytes key j) none (find_prop j db.world_props) defval
get_prop-set_prop db key j (c ∷ more) defval =
    ap (λ o. elim o as (λ x. Bytes) [ none ↦ defval | some v ↦ v ])
      (find_prop-put_prop key j (c ∷ more) db.world_props)
    ∙ default-if (eq_bytes key j) (some (c ∷ more)) (find_prop j db.world_props) defval

pack_iff : (x y i j : ℕ) → x < 2 ^ 32 → i < 2 ^ 32 → (pack x y == pack i j) ≡ (x == i && y == j)
pack_iff x y i j hx hi = ground arith

-- A chunk whose protection is set to a state has that state, and no other chunk changes: two pairs
-- of coordinates, with 32 bits in x, are told apart in the number that they are packed into.
pub get_chunk_protection-set_chunk_protection :
    (db : Database) (x y i j : ℕ) (state : Bool)
    → x < 2 ^ 32
    → i < 2 ^ 32
    → get_chunk_protection (set_chunk_protection db x y state) i j
      ≡ (if x == i && y == j then state else get_chunk_protection db i j)
unfolding get_chunk_protection set_chunk_protection
get_chunk_protection-set_chunk_protection db x y i j true hx hi =
    contains-emplace (pack x y) (pack i j) db.ranked_chunks
    ∙ ap (λ b. b || contains (pack i j) db.ranked_chunks) (pack_iff x y i j hx hi)
    ∙ or-if (x == i && y == j) (contains (pack i j) db.ranked_chunks)
get_chunk_protection-set_chunk_protection db x y i j false hx hi =
    contains-remove (pack x y) (pack i j) db.ranked_chunks
    ∙ ap (λ b. if b then false else contains (pack i j) db.ranked_chunks) (pack_iff x y i j hx hi)
