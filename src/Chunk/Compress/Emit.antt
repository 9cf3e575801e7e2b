-- ===== src/Chunk/Compress/Emit.antt =====
-- What the last loops of `compress_data_to` write, and what a reader of it does.
use owop_server_for_heroku_g.Base.{
  ℕ, zero, suc, ◌+◌, ◌-◌, ◌*◌, ◌≤◌, ◌≡◌, refl, ap, sym, ◌∙◌, true, List, [], ◌∷◌, ◌++◌, arith, leb,
  if◌then◌else◌, length, Bool-cases, inl, inr, take, drop, lt→ltb, drop-append,
}
use owop_server_for_heroku_g.Base.Words.{Bytes, le16}
use owop_server_for_heroku_g.Chunk.Compress.{Point, copy_until, emit}
use owop_server_for_heroku_g.Chunk.Compress.Runs.{Run, pixels, expand, points_of}

-- The compressed bytes of the runs: a run of three pixels or more is its size and its colour.
abbrev pub payload : List Run → Bytes
payload [] = []
payload (r ∷ rs) =
    if leb 3 r.size
    then le16 r.size ++ (r.a ∷ r.b ∷ r.c ∷ payload rs)
    else pixels r.size r.a r.b r.c ++ payload rs

-- The first point is not before `n`.
abbrev From : ℕ → List Point → Type 0
From n [] = Unit
From n (p ∷ ps) = n ≤ p.pos

From-mono : (m n : ℕ) (ps : List Point) → m ≤ n → From n ps → From m ps
From-mono m n [] h k = tt
From-mono m n (p ∷ ps) h k = omega arith

points_of-From : (rs : List Run) (base : ℕ) → From base (points_of base rs)
points_of-From [] base = tt
points_of-From (r ∷ rs) base = elim (Bool-cases (leb 3 r.size)) [
  | inl long ↦ rw long (omega arith)
  | inr short ↦ rw short (
      From-mono base (base + r.size * 3) (points_of (base + r.size * 3) rs) (omega arith)
        (points_of-From rs _))
]

pub length-pixels : (n a b c : ℕ) → length (pixels n a b c) ≡ n * 3
length-pixels zero a b c = refl
length-pixels (suc n) a b c = omega (arith, length-pixels n a b c)

emit_one :
    (ps : List Point) (ci d : ℕ) (ds : Bytes)
    → From (ci + 1) ps
    → emit ps ci (d ∷ ds) ≡ d ∷ emit ps (ci + 1) ds
unfolding emit copy_until
emit_one [] ci d ds h = refl
emit_one (p ∷ ps) ci d ds h = rw (lt→ltb ci p.pos (omega arith)) refl

emit-append :
    (xs ys : Bytes) (ps : List Point) (ci : ℕ)
    → From (ci + length xs) ps
    → emit ps ci (xs ++ ys) ≡ xs ++ emit ps (ci + length xs) ys
emit-append [] ys ps ci h = ap (λ n. emit ps n ys) (omega arith)
emit-append (x ∷ xs) ys ps ci h =
    emit_one ps ci x (xs ++ ys) (From-mono (ci + 1) (ci + suc (length xs)) ps (omega arith) h)
    ∙ ap (λ l. x ∷ l)
        (emit-append xs ys ps (ci + 1)
            (From-mono (ci + 1 + length xs) (ci + suc (length xs)) ps (omega arith) h)
          ∙ ap (λ n. xs ++ emit ps n ys) (omega arith))

copy_none : (pos d : ℕ) (ds : Bytes) → copy_until pos pos (d ∷ ds) ≡ ([], pos, d ∷ ds)
unfolding copy_until
copy_none pos d ds = ground arith

emit_at :
    (ps : List Point) (pos size d : ℕ) (ds : Bytes)
    → emit (record { pos = pos; size = size } ∷ ps) pos (d ∷ ds)
      ≡ le16 size
        ++ (take 3 (d ∷ ds) ++ emit ps (pos + 2 + 3) (drop (size * 3 - 3) (drop 3 (d ∷ ds))))
unfolding emit
emit_at ps pos size d ds = rw (copy_none pos d ds) refl

drop-pixels : (n m a b c : ℕ) (ys : Bytes) → m ≡ n * 3 → drop m (pixels n a b c ++ ys) ≡ ys
drop-pixels n m a b c ys e =
    ap (λ k. drop k (pixels n a b c ++ ys)) (e ∙ sym (length-pixels n a b c))
    ∙ drop-append (pixels n a b c) ys

emit_run :
    (ps : List Point) (base size a b c : ℕ) (ys : Bytes)
    → leb 3 size ≡ true
    → emit (record { pos = base; size = size } ∷ ps) base (pixels size a b c ++ ys)
      ≡ le16 size ++ (a ∷ b ∷ c ∷ emit ps (base + 5) ys)
emit_run ps base zero a b c ys h = cc
emit_run ps base (suc n) a b c ys h =
    emit_at ps base (suc n) a (b ∷ c ∷ pixels n a b c ++ ys)
    ∙ rw (drop-pixels n (suc n * 3 - 3) a b c ys (omega arith))
        (ap (λ k. le16 (suc n) ++ (a ∷ b ∷ c ∷ emit ps k ys)) {y = base + 5} (omega arith))

-- The copying loops write the payload of the runs.
pub emit-payload :
    (rs : List Run) (base : ℕ) → emit (points_of base rs) base (expand rs) ≡ payload rs
emit-payload [] base = unfold emit in refl
emit-payload (r ∷ rs) base = elim (Bool-cases (leb 3 r.size)) [
  | inl long ↦ rw long (
      emit_run (points_of (base + 5) rs) base r.size r.a r.b r.c (expand rs) long
      ∙ ap (λ l. le16 r.size ++ (r.a ∷ r.b ∷ r.c ∷ l)) (emit-payload rs (base + 5)))
  | inr short ↦
      let next = base + r.size * 3 in
      let e : base + length (pixels r.size r.a r.b r.c) ≡ next =
        omega (arith, length-pixels r.size r.a r.b r.c) in
      rw short (
        emit-append (pixels r.size r.a r.b r.c) (expand rs) (points_of next rs) base
          (rw e (points_of-From rs next))
        ∙ ap (λ l. pixels r.size r.a r.b r.c ++ l)
            (ap (λ n. emit (points_of next rs) n (expand rs)) e ∙ emit-payload rs next))
]
