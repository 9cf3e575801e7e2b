-- ===== src/Chunk/Compress/Runs.antt =====
-- What the first loop of `compress_data_to` looks for: the longest runs of one colour. The theorems
-- below tie the loop to this description.
use owop_server_for_heroku_g.Base.{
  ℕ, zero, suc, ◌+◌, ◌*◌, ◌≤◌, ◌<◌, ◌^◌, ◌≡◌, refl, ap, ◌∙◌, true, false, List, [], ◌∷◌, ◌++◌,
  arith, leb, ◌==◌, if◌then◌else◌, length, All, append_assoc, append-nil, Bool-cases, inl, inr,
}
use owop_server_for_heroku_g.Base.Words.{Bytes}
use owop_server_for_heroku_g.Chunk.Compress.{
  Point, Scan, color, scan_pixel, scan_loop, scan_end, scan,
}

pub record Run : Type 0 where
  pub a : ℕ
  pub b : ℕ
  pub c : ℕ
  pub size : ℕ

-- `n` pixels of one colour.
abbrev pub pixels : ℕ → ℕ → ℕ → ℕ → Bytes
pixels zero a b c = []
pixels (suc n) a b c = a ∷ b ∷ c ∷ pixels n a b c

abbrev pub expand : List Run → Bytes
expand [] = []
expand (r ∷ rs) = pixels r.size r.a r.b r.c ++ expand rs

-- The runs of the pixels `rest`, behind `t` pixels of the colour `a b c`.
pub runs_from : ℕ → ℕ → ℕ → ℕ → Bytes → List Run
runs_from a b c t (x ∷ y ∷ z ∷ rest) = elim (color x y z == color a b c) [
  | true ↦ runs_from a b c (t + 1) rest
  | false ↦ record { a = a; b = b; c = c; size = t } ∷ runs_from x y z 1 rest
]
runs_from a b c t rest = record { a = a; b = b; c = c; size = t } ∷ []

-- The text is a sequence of pixels.
abbrev pub IsPixels : Bytes → Type 0
IsPixels [] = Unit
IsPixels (a ∷ b ∷ c ∷ rest) = (a < 256) × (b < 256) × (c < 256) × IsPixels rest
IsPixels rest = ⊥

abbrev pub points_of : ℕ → List Run → List Point
points_of base [] = []
points_of base (r ∷ rs) =
    if leb 3 r.size
    then record { pos = base; size = r.size } ∷ points_of (base + 5) rs
    else points_of (base + r.size * 3) rs

-- The number of compressed bytes.
abbrev pub width : List Run → ℕ
width [] = 0
width (r ∷ rs) = (if leb 3 r.size then 5 else r.size * 3) + width rs

abbrev state : ℕ → ℕ → ℕ → ℕ → ℕ → List Point → Scan
state base a b c t ps = record { comp_bytes = base + t * 3; last = color a b c; t = t; points = ps }

step_same :
    (base a b c t x y z : ℕ) (ps : List Point)
    → (color x y z == color a b c) ≡ true
    → base + t * 3 + 3 < 2 ^ 16
    → scan_pixel (state base a b c t ps) (color x y z) ≡ state base a b c (t + 1) ps
unfolding scan_pixel
step_same base a b c t x y z ps same fits = ground arith

step_short :
    (base a b c t x y z : ℕ) (ps : List Point)
    → (color x y z == color a b c) ≡ false
    → leb 3 t ≡ false
    → base + t * 3 + 3 < 2 ^ 16
    → scan_pixel (state base a b c t ps) (color x y z) ≡ state (base + t * 3) x y z 1 ps
unfolding scan_pixel
step_short base a b c t x y z ps other short fits = ground arith

step_long :
    (base a b c t x y z : ℕ) (ps : List Point)
    → (color x y z == color a b c) ≡ false
    → leb 3 t ≡ true
    → base + t * 3 + 3 < 2 ^ 16
    → scan_pixel (state base a b c t ps) (color x y z)
      ≡ state (base + 5) x y z 1 (ps ++ record { pos = base; size = t } ∷ [])
unfolding scan_pixel
step_long base a b c t x y z ps other long fits = ground arith

abbrev Ended : ℕ → List Run → List Point → Scan → Type 0
Ended base rs ps s = (s.points ≡ ps ++ points_of base rs) × (s.comp_bytes ≡ base + width rs)

scan_end_lem :
    (base a b c t : ℕ) (ps : List Point)
    → base + t * 3 < 2 ^ 16
    → Ended base
        (record { a = a; b = b; c = c; size = t } ∷ [])
        ps
        (scan_end (state base a b c t ps))
unfolding scan_end
scan_end_lem base a b c t ps fits = elim (Bool-cases (leb 3 t)) [
  | inl long ↦ ground (arith, append-nil ps)
  | inr short ↦ ground (arith, append-nil ps)
]

-- The runs found from a pixel on begin at `base`, take up `width` bytes and hold exactly the pixels.
scan_loop_lem :
    (rest : Bytes) (base a b c t : ℕ) (ps : List Point)
    → IsPixels rest
    → base + t * 3 + length rest < 2 ^ 16
    → Ended base (runs_from a b c t rest) ps (scan_end (scan_loop (state base a b c t ps) rest))
unfolding scan_loop runs_from
scan_loop_lem [] base a b c t ps p fits = scan_end_lem base a b c t ps (omega arith)
scan_loop_lem (x ∷ []) base a b c t ps p fits = absurd p
scan_loop_lem (x ∷ y ∷ []) base a b c t ps p fits = absurd p
scan_loop_lem (x ∷ y ∷ z ∷ rest) base a b c t ps (_, _, _, p) fits =
    elim (Bool-cases (color x y z == color a b c)) [
      | inl same ↦
          rw (step_same base a b c t x y z ps same (omega arith), same, runs_from)
            (scan_loop_lem rest base a b c (t + 1) ps p (omega arith))
      | inr other ↦ elim (Bool-cases (leb 3 t)) [
        | inl long ↦
            let p_long : Point = record { pos = base; size = t } in
            let ih = scan_loop_lem rest (base + 5) x y z 1 (ps ++ p_long ∷ []) p (ground arith) in
            rw (step_long base a b c t x y z ps other long (omega arith), other, runs_from, long)
              (ih.0 ∙ append_assoc ps (p_long ∷ []) _, ih.1 ∙ omega arith)
        | inr short ↦
            let ih = scan_loop_lem rest (base + t * 3) x y z 1 ps p (omega arith) in
            rw (step_short base a b c t x y z ps other short (omega arith), other, runs_from, short)
              (ih.0, ih.1 ∙ omega arith)
      ]
    ]

pixels_suc : (t a b c : ℕ) (s : Bytes) → pixels (suc t) a b c ++ s ≡ pixels t a b c ++ a ∷ b ∷ c ∷ s
pixels_suc zero a b c s = refl
pixels_suc (suc t) a b c s = ap (λ l. a ∷ b ∷ c ∷ l) (pixels_suc t a b c s)

pixels_more :
    (t a b c : ℕ) (s : Bytes) → pixels (t + 1) a b c ++ s ≡ pixels t a b c ++ a ∷ b ∷ c ∷ s
pixels_more t a b c s =
    ap (λ n. pixels n a b c ++ s) {y = suc t} (omega arith) ∙ pixels_suc t a b c s

color_same :
    (a b c x y z : ℕ) (s : Bytes)
    → IsPixels (a ∷ b ∷ c ∷ x ∷ y ∷ z ∷ s)
    → (color x y z == color a b c) ≡ true
    → a ∷ b ∷ c ∷ s ≡ x ∷ y ∷ z ∷ s
color_same a b c x y z s (ha, hb, hc, (hx, hy, hz, _)) h = ground arith

expand-runs_from :
    (rest : Bytes) (a b c t : ℕ)
    → IsPixels (a ∷ b ∷ c ∷ rest)
    → expand (runs_from a b c t rest) ≡ pixels t a b c ++ rest
unfolding runs_from
expand-runs_from [] a b c t p = refl
expand-runs_from (x ∷ []) a b c t p = absurd p.3
expand-runs_from (x ∷ y ∷ []) a b c t p = absurd p.3
expand-runs_from (x ∷ y ∷ z ∷ rest) a b c t p = elim (Bool-cases (color x y z == color a b c)) [
  | inl same ↦
      rw (same, runs_from)
        (expand-runs_from rest a b c (t + 1) (p.0, p.1, p.2, p.3.3)
          ∙ pixels_more t a b c rest
          ∙ ap (λ l. pixels t a b c ++ l) (color_same a b c x y z rest p same))
  | inr other ↦
      rw (other, runs_from) (ap (λ l. pixels t a b c ++ l) (expand-runs_from rest x y z 1 p.3))
]

-- The sizes of the runs fit what is left.
sizes-runs_from :
    (rest : Bytes) (a b c t n : ℕ)
    → IsPixels rest
    → t + length rest ≤ n
    → All (λ r. r.size ≤ n) (runs_from a b c t rest)
unfolding runs_from
sizes-runs_from [] a b c t n p h = (omega arith, tt)
sizes-runs_from (x ∷ []) a b c t n p h = absurd p
sizes-runs_from (x ∷ y ∷ []) a b c t n p h = absurd p
sizes-runs_from (x ∷ y ∷ z ∷ rest) a b c t n p h = elim (Bool-cases (color x y z == color a b c)) [
  | inl same ↦ rw (same, runs_from) (sizes-runs_from rest a b c (t + 1) n p.3 (omega arith))
  | inr other ↦
      rw (other, runs_from) (omega arith, sizes-runs_from rest x y z 1 n p.3 (omega arith))
]

-- The runs of a whole text.
pub runs : Bytes → List Run
runs (a ∷ b ∷ c ∷ rest) = runs_from a b c 1 rest
runs rest = []

-- Below 21,845 pixels: no counter wraps, and the loops record exactly the runs of three pixels or
-- more, at the places where the compressed bytes of the runs before them end.
pub scan-runs :
    (s : Bytes)
    → IsPixels s
    → 3 ≤ length s
    → length s < 2 ^ 16
    → ((scan s).points ≡ points_of 0 (runs s)) × ((scan s).comp_bytes ≡ width (runs s))
unfolding scan runs
scan-runs [] p some_pixel fits = absurd (omega arith)
scan-runs (a ∷ []) p some_pixel fits = absurd p
scan-runs (a ∷ b ∷ []) p some_pixel fits = absurd p
scan-runs (a ∷ b ∷ c ∷ rest) p some_pixel fits =
    let r = scan_loop_lem rest 0 a b c 1 [] p.3 (omega arith) in (r.0, r.1 ∙ omega arith)

pub expand-runs : (s : Bytes) → IsPixels s → expand (runs s) ≡ s
unfolding runs
expand-runs [] p = refl
expand-runs (a ∷ []) p = absurd p
expand-runs (a ∷ b ∷ []) p = absurd p
expand-runs (a ∷ b ∷ c ∷ rest) p = expand-runs_from rest a b c 1 p

pub sizes-runs : (s : Bytes) (n : ℕ) → IsPixels s → length s ≤ n → All (λ r. r.size ≤ n) (runs s)
unfolding runs
sizes-runs [] n p h = tt
sizes-runs (a ∷ []) n p h = absurd p
sizes-runs (a ∷ b ∷ []) n p h = absurd p
sizes-runs (a ∷ b ∷ c ∷ rest) n p h = sizes-runs_from rest a b c 1 n p.3 (omega arith)
