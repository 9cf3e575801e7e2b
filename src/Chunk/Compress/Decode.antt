-- ===== src/Chunk/Compress/Decode.antt =====
-- A reader of the CHUNKDATA message, written from its layout and not from the code that writes it.
use owop_server_for_heroku_g.Base.{
  ℕ, suc, ◌+◌, ◌-◌, ◌*◌, ◌≤◌, ◌<◌, ◌^◌, ◌%◌, ◌/◌, ◌≡◌, refl, ap, ◌∙◌, List, [], ◌∷◌, ◌++◌, arith,
  leb, ◌==◌, if◌then◌else◌, length, All, Bool-cases, inl, inr, take, drop, map, Option, none, some,
}
use owop_server_for_heroku_g.Base.Words.{Bytes}
use owop_server_for_heroku_g.Chunk.Compress.{Point, positions}
use owop_server_for_heroku_g.Chunk.Compress.Runs.{Run, pixels, expand, points_of}
use owop_server_for_heroku_g.Chunk.Compress.Emit.{payload, length-pixels}

-- At the position of a run stand its size, in two bytes, and its colour.
decode_run : (Bytes → Bytes) → Bytes → Bytes
decode_run more (lo ∷ hi ∷ a ∷ b ∷ c ∷ bs) = pixels (lo + hi * 256) a b c ++ more bs
decode_run more bs = []

-- Pixels up to the next position are taken as they are.
decode : List ℕ → ℕ → Bytes → Bytes
decode [] ci bs = bs
decode (p ∷ ps) ci bs = take (p - ci) bs ++ decode_run (decode ps (p + 5)) (drop (p - ci) bs)

abbrev places : List Point → List ℕ
places = map λ p. p.pos

abbrev From : ℕ → List ℕ → Type 0
From n [] = Unit
From n (p ∷ ps) = n ≤ p

From-mono : (m n : ℕ) (ps : List ℕ) → m ≤ n → From n ps → From m ps
From-mono m n [] h k = tt
From-mono m n (p ∷ ps) h k = omega arith

points_of-From : (rs : List Run) (base : ℕ) → From base (places (points_of base rs))
points_of-From [] base = tt
points_of-From (r ∷ rs) base = elim (Bool-cases (leb 3 r.size)) [
  | inl long ↦ rw long (omega arith)
  | inr short ↦ rw short (
      From-mono base (base + r.size * 3) (places (points_of (base + r.size * 3) rs)) (omega arith)
        (points_of-From rs _))
]

decode_one :
    (ps : List ℕ) (ci b : ℕ) (bs : Bytes)
    → From (ci + 1) ps
    → decode ps ci (b ∷ bs) ≡ b ∷ decode ps (ci + 1) bs
unfolding decode
decode_one [] ci b bs h = refl
decode_one (p ∷ ps) ci b bs h = let e : p - ci ≡ suc (p - (ci + 1)) = omega arith in rw e refl

decode-append :
    (xs ys : Bytes) (ps : List ℕ) (ci : ℕ)
    → From (ci + length xs) ps
    → decode ps ci (xs ++ ys) ≡ xs ++ decode ps (ci + length xs) ys
decode-append [] ys ps ci h = ap (λ n. decode ps n ys) {y = ci + 0} (omega arith)
decode-append (x ∷ xs) ys ps ci h =
    decode_one ps ci x (xs ++ ys) (From-mono (ci + 1) (ci + suc (length xs)) ps (omega arith) h)
    ∙ ap (λ l. x ∷ l)
        (decode-append xs ys ps (ci + 1)
            (From-mono (ci + 1 + length xs) (ci + suc (length xs)) ps (omega arith) h)
          ∙ ap (λ n. xs ++ decode ps n ys) {y = ci + suc (length xs)} (omega arith))

decode_at :
    (ps : List ℕ) (p lo hi a b c : ℕ) (bs : Bytes)
    → decode (p ∷ ps) p (lo ∷ hi ∷ a ∷ b ∷ c ∷ bs)
      ≡ pixels (lo + hi * 256) a b c ++ decode ps (p + 5) bs
unfolding decode decode_run
decode_at ps p lo hi a b c bs = let e : p - p ≡ 0 = omega arith in rw e refl

decode-payload :
    (rs : List Run) (base : ℕ)
    → All (λ r. r.size ≤ 2 ^ 16 - 1) rs
    → decode (places (points_of base rs)) base (payload rs) ≡ expand rs
decode-payload [] base h = unfold decode in refl
decode-payload (r ∷ rs) base (fits, h) = elim (Bool-cases (leb 3 r.size)) [
  | inl long ↦ rw long (
      decode_at (places (points_of (base + 5) rs)) base (r.size % 256) (r.size / 256 % 256) r.a r.b
        r.c (payload rs)
      ∙ ap
          (λ n.
            pixels n r.a r.b r.c
            ++ decode (places (points_of (base + 5) rs)) (base + 5) (payload rs))
          {y = r.size} (omega arith)
      ∙ ap (λ l. pixels r.size r.a r.b r.c ++ l) (decode-payload rs (base + 5) h))
  | inr short ↦
      let next = base + r.size * 3 in
      let e : base + length (pixels r.size r.a r.b r.c) ≡ next =
        omega (arith, length-pixels r.size r.a r.b r.c) in
      rw short (
        decode-append (pixels r.size r.a r.b r.c) (payload rs) (places (points_of next rs)) base
          (rw e (points_of-From rs next))
        ∙ ap (λ l. pixels r.size r.a r.b r.c ++ l)
            (ap (λ n. decode (places (points_of next rs)) n (payload rs)) e
              ∙ decode-payload rs next h))
]

pub record Message : Type 0 where
  pub cx : ℕ
  pub cy : ℕ
  pub ranked : ℕ
  pub size : ℕ
  pub pixels : Bytes

read_positions : ℕ → Bytes → List ℕ × Bytes
read_positions (suc n) (lo ∷ hi ∷ bs) =
    let (ps, rest) = read_positions n bs in ((lo + hi * 256) ∷ ps, rest)
read_positions n bs = ([], bs)

pub read_body : ℕ → Bytes → Bytes
read_body n bs = let (ps, rest) = read_positions n bs in decode ps 0 rest

abbrev pub Fits : List Point → Type 0
Fits = All λ p. p.pos < 2 ^ 16

read_positions-positions :
    (ps : List Point) (rest : Bytes)
    → Fits ps
    → read_positions (length ps) (positions ps ++ rest) ≡ (places ps, rest)
unfolding read_positions positions
read_positions-positions [] rest h = refl
read_positions-positions (p ∷ ps) rest (hp, h) =
    let e : p.pos % 256 + p.pos / 256 % 256 * 256 ≡ p.pos = omega arith in
    rw (read_positions-positions ps rest h, e) refl

-- Positions and payload as the code writes them are read back to the pixels of the runs.
pub read_body-payload :
    (rs : List Run) (n : ℕ)
    → n ≡ length (points_of 0 rs)
    → Fits (points_of 0 rs)
    → All (λ r. r.size ≤ 2 ^ 16 - 1) rs
    → read_body n (positions (points_of 0 rs) ++ payload rs) ≡ expand rs
unfolding read_body
read_body-payload rs n e fits sizes =
    rw (e, read_positions-positions (points_of 0 rs) (payload rs) fits, read_body)
      (decode-payload rs 0 sizes)

-- Tag, coordinates, protection, uncompressed size, number of runs, their positions, pixels.
unfoldable pub read_message : Bytes → Option Message
read_message (tag ∷ x0 ∷ x1 ∷ x2 ∷ x3 ∷ y0 ∷ y1 ∷ y2 ∷ y3 ∷ ranked ∷ s0 ∷ s1 ∷ n0 ∷ n1 ∷ bs) =
    if tag == 2
    then some (record {
      cx = x0 + x1 * 2 ^ 8 + x2 * 2 ^ 16 + x3 * 2 ^ 24;
      cy = y0 + y1 * 2 ^ 8 + y2 * 2 ^ 16 + y3 * 2 ^ 24;
      ranked = ranked;
      size = s0 + s1 * 256;
      pixels = read_body (n0 + n1 * 256) bs;
    })
    else none
read_message bs = none
