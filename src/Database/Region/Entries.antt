-- ===== src/Database/Region/Entries.antt =====
-- The table of a region file: what makes it consistent, and what the writes of `set_chunk` do to it.
use owop_server_for_heroku_g.Base.{
  ℕ, zero, suc, ◌+◌, ◌*◌, ◌%◌, ◌^◌, ◌≤◌, ◌<◌, ◌≡◌, ◌≢◌, refl, sym, ap, ◌∙◌, arith, ◌==◌,
  if◌then◌else◌, length, Bool-cases, inl, inr, get_or, replicate, length-replicate,
}
use native.Mathlib.Decide.{dec_lt, ℕ_discrete}
use owop_server_for_heroku_g.Base.Words.{Bytes}
use owop_server_for_heroku_g.Database.Region.{slice, write_at, chunk_pos, size_bytes, empty_region}
use owop_server_for_heroku_g.Database.Region.Slices.{
  slice-write_at_self, slice-write_at_before, slice-write_at_after, length-write_at_inside,
  length-write_at_end,
}

-- The position in entry number `i`; 0 if the chunk was never saved.
abbrev pub entry : Bytes → ℕ → ℕ
entry s i = chunk_pos (slice s (3 * i) 3)

-- How many of the first `n` entries are in use.
pub used : (ℕ → ℕ) → ℕ → ℕ
used f zero = 0
used f (suc n) = used f n + (if f n == 0 then 0 else 1)

-- Every used entry names a whole block of its own, and there are as many blocks as used entries.
pub record IsRegion (s : Bytes) : Type 0 where
  pub blocks : ℕ
  pub sized : length s ≡ 3072 + blocks * 768
  pub counted : used (entry s) 1024 ≡ blocks
  pub placed :
      (i : ℕ) → i < 1024 → entry s i ≢ 0 → (j : ℕ) × (j < blocks) × (entry s i ≡ 3072 + j * 768)
  pub apart : (i j : ℕ) → i < 1024 → j < 1024 → entry s i ≢ 0 → entry s i ≡ entry s j → i ≡ j

used-le : (f : ℕ → ℕ) (n : ℕ) → used f n ≤ n
unfolding used
used-le f zero = omega arith
used-le f (suc n) = ground (arith, used-le f n)

pub blocks-le : (s : Bytes) (r : IsRegion s) → r.blocks ≤ 1024
blocks-le s r = omega (arith, r.counted, used-le (entry s) 1024)

used-same : (f g : ℕ → ℕ) (n : ℕ) → ((k : ℕ) → k < n → g k ≡ f k) → used g n ≡ used f n
unfolding used
used-same f g zero h = refl
used-same f g (suc n) h =
    ground (arith, h n (omega arith), used-same f g n (λ k l. h k (omega arith)))

used_one_more :
    (f g : ℕ → ℕ) (i n : ℕ)
    → i < n
    → ((k : ℕ) → k < n → k ≢ i → g k ≡ f k)
    → f i ≡ 0
    → g i ≢ 0
    → used g n ≡ used f n + 1
unfolding used
used_one_more f g i zero l h e k = absurd (omega arith)
used_one_more f g i (suc n) l h e k = elim (Bool-cases (i == n)) [
  | inl last ↦
      let same = used-same f g n (λ m lm. h m (omega arith) (ground arith)) in ground (arith, same)
  | inr before ↦ ground (
    arith,
    h n (omega arith) (ground arith),
    used_one_more f g i n (ground arith) (λ m lm ne. h m (omega arith) ne) e k,
  )
]

pub chunk_pos-size_bytes : (n : ℕ) → n < 2 ^ 32 → n % 256 ≡ 0 → chunk_pos (size_bytes n) ≡ n
chunk_pos-size_bytes n h e = omega arith

-- Writing a block that is there already.
module _ (s arr : Bytes) (r : IsRegion s) (sized : length arr ≡ 768) (j : ℕ)
    (inside : j < r.blocks) where
  pub entry-rewrite : (k : ℕ) → k < 1024 → entry (write_at (3072 + j * 768) s arr) k ≡ entry s k
  entry-rewrite k h = ap chunk_pos (
      slice-write_at_before (3072 + j * 768) s arr (3 * k) 3 (omega (arith, r.sized)) (omega arith))

  pub rewrite-IsRegion : IsRegion (write_at (3072 + j * 768) s arr)
  rewrite-IsRegion = record {
    blocks = r.blocks;
    sized = length-write_at_inside (3072 + j * 768) s arr (omega (arith, r.sized)) ∙ r.sized;
    counted = used-same (entry s) _ 1024 entry-rewrite ∙ r.counted;
    placed = λ k h u. rw (entry-rewrite k h) (r.placed k h (λ e. u (entry-rewrite k h ∙ e)));
    apart = λ k m h hm u e.
        r.apart k m h hm (λ z. u (entry-rewrite k h ∙ z))
          (sym (entry-rewrite k h) ∙ e ∙ entry-rewrite m hm);
  }

-- Appending a block for entry `i`.
abbrev pub appended : Bytes → ℕ → Bytes → Bytes
appended s i arr = write_at (length s) (write_at (3 * i) s (size_bytes (length s))) arr

module _ (s arr : Bytes) (r : IsRegion s) (sized : length arr ≡ 768) (i : ℕ) (hi : i < 1024) where
  length_table : length (write_at (3 * i) s (size_bytes (length s))) ≡ length s
  length_table = length-write_at_inside (3 * i) s _ (omega (arith, r.sized))

  pub entry-appended_self : entry (appended s i arr) i ≡ length s
  entry-appended_self =
      ap chunk_pos (
        slice-write_at_before (length s) (write_at (3 * i) s (size_bytes (length s))) arr (3 * i) 3
          (omega (arith, length_table)) (omega (arith, r.sized))
        ∙ slice-write_at_self (3 * i) s (size_bytes (length s)))
      ∙ chunk_pos-size_bytes (length s) (omega (arith, r.sized, blocks-le s r))
          (omega (arith, r.sized))

  pub entry-appended_ne : (k : ℕ) → k < 1024 → k ≢ i → entry (appended s i arr) k ≡ entry s k
  entry-appended_ne k h ne = ap chunk_pos (
      slice-write_at_before (length s) (write_at (3 * i) s (size_bytes (length s))) arr (3 * k) 3
        (omega (arith, length_table)) (omega (arith, r.sized))
      ∙ elim (dec_lt k i) [
        | yes before ↦
            slice-write_at_before (3 * i) s _ (3 * k) 3 (omega (arith, r.sized)) (omega arith)
        | no after ↦
            slice-write_at_after (3 * i) s _ (3 * k) 3 (omega (arith, r.sized)) (omega arith)
      ])

  pub length-appended : length (appended s i arr) ≡ length s + 768
  length-appended =
      length-write_at_end (length s) _ arr (sym length_table) ∙ omega (arith, length_table)

  -- An entry that was in use lies before the end of the file.
  before_end : (k : ℕ) → k < 1024 → entry s k ≢ 0 → entry s k < length s
  before_end k h u = let (j, inside, e) = r.placed k h u in omega (arith, r.sized, inside, e)

  appended_placed :
      (k : ℕ)
      → k < 1024
      → entry (appended s i arr) k ≢ 0
      → (j : ℕ) × (j < r.blocks + 1) × (entry (appended s i arr) k ≡ 3072 + j * 768)
  appended_placed k h u = elim (ℕ_discrete k i) [
    | yes e ↦
        (r.blocks, omega arith, ap (entry (appended s i arr)) e ∙ entry-appended_self ∙ r.sized)
    | no ne ↦
        let same = entry-appended_ne k h ne in
        let (j, inside, e) = r.placed k h (λ z. u (same ∙ z)) in
        (j, omega (arith, inside), same ∙ e)
  ]

  appended_apart :
      (k m : ℕ)
      → k < 1024
      → m < 1024
      → entry (appended s i arr) k ≢ 0
      → entry (appended s i arr) k ≡ entry (appended s i arr) m
      → k ≡ m
  appended_apart k m h hm u e = elim (ℕ_discrete k i) [
    | yes ki ↦
        let new_k : entry (appended s i arr) k ≡ length s =
          ap (entry (appended s i arr)) ki ∙ entry-appended_self in
        elim (ℕ_discrete m i) [
          | yes mi ↦ ki ∙ sym mi
          | no mo ↦
              let same = entry-appended_ne m hm mo in
              absurd (omega (arith, before_end m hm (λ z. u (e ∙ same ∙ z)), same, e, new_k))
        ]
    | no ko ↦
        let same = entry-appended_ne k h ko in
        elim (ℕ_discrete m i) [
          | yes mi ↦
              let new_m : entry (appended s i arr) m ≡ length s =
                ap (entry (appended s i arr)) mi ∙ entry-appended_self in
              absurd (omega (arith, before_end k h (λ z. u (same ∙ z)), same, e, new_m))
          | no mo ↦ r.apart k m h hm (λ z. u (same ∙ z)) (sym same ∙ e ∙ entry-appended_ne m hm mo)
        ]
  ]

  pub appended-IsRegion : entry s i ≡ 0 → IsRegion (appended s i arr)
  appended-IsRegion free = record {
    blocks = r.blocks + 1;
    sized = length-appended ∙ omega (arith, r.sized);
    counted =
        used_one_more (entry s) _ i 1024 hi entry-appended_ne free
          (λ e. omega (arith, entry-appended_self, r.sized))
        ∙ omega (arith, r.counted);
    placed = appended_placed;
    apart = appended_apart;
  }

slice-replicate : (m q n k : ℕ) → get_or (slice (replicate m 0) q n) k 0 ≡ 0
slice-replicate m q zero k = refl
slice-replicate zero zero (suc n) k = refl
slice-replicate zero (suc q) (suc n) k = refl
slice-replicate (suc m) zero (suc n) zero = refl
slice-replicate (suc m) zero (suc n) (suc k) = slice-replicate m zero n k
slice-replicate (suc m) (suc q) (suc n) k = slice-replicate m q (suc n) k

pub entry-empty : (i : ℕ) → entry empty_region i ≡ 0
unfolding empty_region
entry-empty i = omega (
  arith,
  slice-replicate 3072 (3 * i) 3 0,
  slice-replicate 3072 (3 * i) 3 1,
  slice-replicate 3072 (3 * i) 3 2,
)

used-zero : (f : ℕ → ℕ) (n : ℕ) → ((k : ℕ) → f k ≡ 0) → used f n ≡ 0
unfolding used
used-zero f zero h = refl
used-zero f (suc n) h = ground (arith, h n, used-zero f n h)

length-empty : length empty_region ≡ 3072
unfolding empty_region
length-empty = length-replicate {A = ℕ} 3072 0

-- The file that `get_handle` creates is consistent, with no block.
pub IsRegion-empty : IsRegion empty_region
IsRegion-empty = record {
  blocks = 0;
  sized = length-empty;
  counted = used-zero (entry empty_region) 1024 entry-empty;
  placed = λ i h u. absurd (u (entry-empty i));
  apart = λ i j h hj u e. absurd (u (entry-empty i));
}
