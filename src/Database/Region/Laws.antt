-- ===== src/Database/Region/Laws.antt =====
-- Saving and loading chunks through a region file.
use owop_server_for_heroku_g.Base.{
  ℕ, ◌+◌, ◌*◌, ◌%◌, ◌^◌, ◌≤◌, ◌<◌, ◌≡◌, ◌≢◌, ◌⊎◌, refl, sym, ap, ◌∙◌, true, false, arith, ◌==◌,
  if◌then◌else◌, ltb, drop, length, Bool-cases, inl, inr, drop_all, [], append-nil, ◌||◌,
}
use native.Mathlib.Decide.{ℕ_discrete, dec_lt}
use owop_server_for_heroku_g.Base.Words.{Bytes}
use owop_server_for_heroku_g.Database.Region.{
  Reading, slice, write_at, lookup_pos, size_bytes, sub64, region_read, region_write, region_get,
  region_set,
}
use owop_server_for_heroku_g.Database.Region.Slices.{
  slice-write_at_self, slice-write_at_before, slice-write_at_after, length-slice,
  length-write_at_inside,
}
use owop_server_for_heroku_g.Database.Region.Entries.{
  entry, IsRegion, blocks-le, appended, entry-rewrite, rewrite-IsRegion, entry-appended_self,
  entry-appended_ne, appended-IsRegion,
}

-- The number of a chunk in its region.
abbrev pub slot : ℕ → ℕ → ℕ
slot x y = x % 32 + y % 32 * 32

abbrev reading : Bytes → Reading
reading arr = record { arr = arr; found = true; good = true }

-- What `get_chunk` returns of the file of a consistent region.
abbrev pub loaded : Bytes → ℕ → Bytes → Reading
loaded s i arr =
    if entry s i == 0
    then record { arr = arr; found = false; good = true }
    else record { arr = slice s (entry s i) 768; found = true; good = true }

loaded_at :
    (s : Bytes) (i p : ℕ) (buf : Bytes)
    → entry s i ≡ p
    → p ≢ 0
    → loaded s i buf ≡ reading (slice s p 768)
loaded_at s i p buf e used = rw e (ground arith)

slice-write_at_whole :
    (p : ℕ) (s arr : Bytes) → length arr ≡ 768 → slice (write_at p s arr) p 768 ≡ arr
slice-write_at_whole p s arr sized =
    ap (slice (write_at p s arr) p) (sym sized) ∙ slice-write_at_self p s arr

read_free :
    (s : Bytes) (p : ℕ) (arr : Bytes)
    → p ≡ 0
    → region_read s p true arr ≡ record { arr = arr; found = false; good = true }
unfolding region_read
read_free s p arr e = ground arith

block_test :
    (n p : ℕ)
    → p ≢ 0
    → 3072 ≤ n
    → n < 2 ^ 32
    → p + 768 ≤ n
    → (p == 0 || ltb n 3072 || ltb (sub64 n p) 768) ≡ false
block_test n p used big small inside = ground arith

read_taken :
    (s : Bytes) (p : ℕ) (arr : Bytes)
    → p ≢ 0
    → 3072 ≤ length s
    → length s < 2 ^ 32
    → p + 768 ≤ length s
    → length arr ≡ 768
    → region_read s p true arr ≡ record { arr = slice s p 768; found = true; good = true }
unfolding region_read
read_taken s p arr used big small inside sized =
    let whole = length-slice s p 768 inside in
    let rest : drop (length (slice s p 768)) arr ≡ [] =
      drop_all (length (slice s p 768)) arr (omega (arith, whole, sized)) in
    rw (block_test (length s) p used big small inside, rest, whole, append-nil (slice s p 768)) refl

slots_differ : (x y i j : ℕ) → (x % 32 ≢ i % 32) ⊎ (y % 32 ≢ j % 32) → slot i j ≢ slot x y
slots_differ x y i j (inl other) e = other (omega arith)
slots_differ x y i j (inr other) e = other (omega arith)

module _ (s : Bytes) (r : IsRegion s) (x y : ℕ) where
  entry_read : length (slice s (lookup_pos x y) 3) ≡ 3
  entry_read = length-slice s (lookup_pos x y) 3 (omega (arith, r.sized))

  -- In a consistent region, loading a chunk finds either an unused entry, and then leaves the buffer as
  -- it is, or the 768 bytes of its block. The stream stays good.
  pub region_get-loaded :
      (arr : Bytes) → length arr ≡ 768 → region_get s x y arr ≡ loaded s (slot x y) arr
  unfolding region_get
  region_get-loaded arr sized = rw entry_read (elim (Bool-cases (entry s (slot x y) == 0)) [
    | inl free ↦ rw free (read_free s (entry s (slot x y)) arr (ground arith))
    | inr taken ↦
        let (j, inside, e) = r.placed (slot x y) (omega arith) (ground arith) in
        rw taken (
          read_taken s (entry s (slot x y)) arr (ground arith) (omega (arith, r.sized))
            (omega (arith, r.sized, blocks-le s r)) (omega (arith, r.sized, e, inside)) sized)
  ])

  -- What `set_chunk` makes of the file.
  region_set_free :
      (arr : Bytes)
      → entry s (slot x y) ≡ 0
      → region_set s x y arr ≡ (appended s (slot x y) arr, true)
  unfolding region_set region_write
  region_set_free arr e =
      let small : length s % 2 ^ 32 ≡ length s = omega (arith, r.sized, blocks-le s r) in
      rw (entry_read, e)
        (ap (λ p. (write_at p (write_at (3 * slot x y) s (size_bytes (length s))) arr, true)) small)

  region_set_taken :
      (arr : Bytes) (p : ℕ)
      → entry s (slot x y) ≡ p
      → p ≢ 0
      → region_set s x y arr ≡ (write_at p s arr, true)
  unfolding region_set region_write
  region_set_taken arr p e used = rw (entry_read, e) (ground arith)

  module _ (arr : Bytes) (sized : length arr ≡ 768) where
    -- Saving a chunk of 768 bytes keeps a consistent file consistent: each used entry has a whole
    -- block of its own.
    pub region_set-IsRegion : IsRegion (region_set s x y arr).0
    region_set-IsRegion = elim (ℕ_discrete (entry s (slot x y)) 0) [
      | yes free ↦
          rw (region_set_free arr free)
            (appended-IsRegion s arr r sized (slot x y) (omega arith) free)
      | no used ↦
          let (j, inside, e) = r.placed (slot x y) (omega arith) used in
          rw (region_set_taken arr (3072 + j * 768) e (omega arith))
            (rewrite-IsRegion s arr r sized j inside)
    ]

    loaded_self :
        (buf : Bytes)
        → loaded (region_set s x y arr).0 (slot x y) buf
          ≡ record { arr = arr; found = true; good = true }
    loaded_self buf = elim (ℕ_discrete (entry s (slot x y)) 0) [
      | yes free ↦
          let written =
            slice-write_at_whole (length s) (write_at (3 * slot x y) s (size_bytes (length s))) arr
              sized in
          rw (region_set_free arr free) (
            loaded_at _ (slot x y) (length s) buf
              (entry-appended_self s arr r sized (slot x y) (omega arith)) (omega (arith, r.sized))
            ∙ ap reading written)
      | no used ↦
          let (j, inside, e) = r.placed (slot x y) (omega arith) used in
          rw (region_set_taken arr (3072 + j * 768) e (omega arith)) (
            loaded_at _ (slot x y) (3072 + j * 768) buf
              (entry-rewrite s arr r sized j inside (slot x y) (omega arith) ∙ e) (omega arith)
            ∙ ap reading (slice-write_at_whole (3072 + j * 768) s arr sized))
    ]

    module _ (k : ℕ) (hk : k < 1024) (ne : k ≢ slot x y) where
      entry_kept : entry (region_set s x y arr).0 k ≡ entry s k
      entry_kept = elim (ℕ_discrete (entry s (slot x y)) 0) [
        | yes free ↦
            rw (region_set_free arr free)
              (entry-appended_ne s arr r sized (slot x y) (omega arith) k hk ne)
        | no used ↦
            let (j, inside, e) = r.placed (slot x y) (omega arith) used in
            rw (region_set_taken arr (3072 + j * 768) e (omega arith))
              (entry-rewrite s arr r sized j inside k hk)
      ]

      table : length (write_at (3 * slot x y) s (size_bytes (length s))) ≡ length s
      table = length-write_at_inside (3 * slot x y) s _ (omega (arith, r.sized))

      -- Two blocks of the file do not overlap.
      block_other :
          (m j p : ℕ)
          → p ≡ 3072 + m * 768
          → m < r.blocks
          → j < r.blocks
          → m ≢ j
          → slice (write_at (3072 + j * 768) s arr) p 768 ≡ slice s p 768
      block_other m j p e hm hj apart = elim (dec_lt m j) [
        | yes before ↦
            slice-write_at_before (3072 + j * 768) s arr p 768 (omega (arith, r.sized))
              (omega arith)
        | no after ↦
            slice-write_at_after (3072 + j * 768) s arr p 768 (omega (arith, r.sized))
              (omega (arith, sized))
      ]

      block_kept :
          (p : ℕ) → entry s k ≡ p → p ≢ 0 → slice (region_set s x y arr).0 p 768 ≡ slice s p 768
      block_kept p e used_k =
          let (m, inside_m, em) = r.placed k hk (λ z. used_k (sym e ∙ z)) in
          elim (ℕ_discrete (entry s (slot x y)) 0) [
            | yes free ↦ rw (region_set_free arr free) (
                slice-write_at_before (length s) (write_at (3 * slot x y) s (size_bytes (length s)))
                  arr p 768 (omega (arith, table)) (omega (arith, e, em, inside_m, r.sized))
                ∙ slice-write_at_after (3 * slot x y) s (size_bytes (length s)) p 768
                    (omega (arith, r.sized)) (omega (arith, e, em)))
            | no used ↦
                let (j, inside, ej) = r.placed (slot x y) (omega arith) used in
                rw (region_set_taken arr (3072 + j * 768) ej (omega arith)) (
                  block_other m j p (sym e ∙ em) inside_m inside (λ z. ne (
                    r.apart k (slot x y) hk (omega arith) (λ w. used_k (sym e ∙ w))
                      (em ∙ ap (λ n. 3072 + n * 768) z ∙ sym ej))))
          ]

      loaded_kept : (buf : Bytes) → loaded (region_set s x y arr).0 k buf ≡ loaded s k buf
      loaded_kept buf = elim (ℕ_discrete (entry s k) 0) [
        | yes free ↦ rw (entry_kept, free) refl
        | no used ↦
            loaded_at (region_set s x y arr).0 k (entry s k) buf entry_kept used
            ∙ ap reading (block_kept (entry s k) refl used)
            ∙ sym (loaded_at s k (entry s k) buf refl used)
      ]

-- A chunk of 768 bytes that was saved to a consistent region is found there, and loaded into a
-- buffer of that size with the same bytes.
pub region_get-region_set_self :
    (s : Bytes) (x y : ℕ) (arr buf : Bytes)
    → IsRegion s
    → length arr ≡ 768
    → length buf ≡ 768
    → region_get (region_set s x y arr).0 x y buf ≡ record { arr = arr; found = true; good = true }
region_get-region_set_self s x y arr buf r sized room =
    region_get-loaded _ (region_set-IsRegion s r x y arr sized) x y buf room
    ∙ loaded_self s r x y arr sized buf

-- Saving a chunk of 768 bytes to a consistent region changes nothing in what is loaded, into a
-- buffer of that size, of the other chunks of the region: those that differ in x & 31 or in y &
-- 31.
pub region_get-region_set_ne :
    (s : Bytes) (x y i j : ℕ) (arr buf : Bytes)
    → IsRegion s
    → length arr ≡ 768
    → length buf ≡ 768
    → (x % 32 ≢ i % 32) ⊎ (y % 32 ≢ j % 32)
    → region_get (region_set s x y arr).0 i j buf ≡ region_get s i j buf
region_get-region_set_ne s x y i j arr buf r sized room other =
    region_get-loaded _ (region_set-IsRegion s r x y arr sized) i j buf room
    ∙ loaded_kept s r x y arr sized (slot i j) (omega arith) (slots_differ x y i j other) buf
    ∙ sym (region_get-loaded s r i j buf room)
