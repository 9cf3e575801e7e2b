-- ===== src/Database/Region/Slices.antt =====
-- Reads after writes, in a file.
use owop_server_for_heroku_g.Base.{
  ℕ, zero, suc, ◌+◌, ◌≤◌, ◌≡◌, refl, ap, [], ◌∷◌, arith, take, drop, length, length-take,
  length-drop,
}
use owop_server_for_heroku_g.Base.Words.{Bytes}
use owop_server_for_heroku_g.Database.Region.{slice, overwrite, write_at}

take-overwrite : (s bs : Bytes) → take (length bs) (overwrite s bs) ≡ bs
unfolding overwrite
take-overwrite s [] = refl
take-overwrite [] (b ∷ bs) = ap (λ l. b ∷ l) (take_self bs)
  where
    take_self : (l : Bytes) → take (length l) l ≡ l
    take_self [] = refl
    take_self (x ∷ l) = ap (λ l. x ∷ l) (take_self l)
take-overwrite (x ∷ s) (b ∷ bs) = ap (λ l. b ∷ l) (take-overwrite s bs)

drop-overwrite : (s bs : Bytes) (q : ℕ) → length bs ≤ q → drop q (overwrite s bs) ≡ drop q s
unfolding overwrite
drop-overwrite s [] q h = refl
drop-overwrite [] (b ∷ bs) zero h = absurd (omega arith)
drop-overwrite [] (b ∷ bs) (suc q) h = drop_past bs q (omega arith)
  where
    drop_past : (l : Bytes) (k : ℕ) → length l ≤ k → drop k l ≡ []
    drop_past [] zero h = refl
    drop_past [] (suc k) h = refl
    drop_past (x ∷ l) zero h = absurd (omega arith)
    drop_past (x ∷ l) (suc k) h = drop_past l k (omega arith)
drop-overwrite (x ∷ s) (b ∷ bs) zero h = absurd (omega arith)
drop-overwrite (x ∷ s) (b ∷ bs) (suc q) h = drop-overwrite s bs q (omega arith)

pub slice-write_at_self : (p : ℕ) (s bs : Bytes) → slice (write_at p s bs) p (length bs) ≡ bs
unfolding write_at
slice-write_at_self zero s bs = take-overwrite s bs
slice-write_at_self (suc p) [] bs = slice-write_at_self p [] bs
slice-write_at_self (suc p) (x ∷ s) bs = slice-write_at_self p s bs

pub slice-write_at_after :
    (p : ℕ) (s bs : Bytes) (q n : ℕ)
    → p ≤ length s
    → p + length bs ≤ q
    → slice (write_at p s bs) q n ≡ slice s q n
unfolding write_at
slice-write_at_after zero s bs q n h k = ap (take n) (drop-overwrite s bs q (omega arith))
slice-write_at_after (suc p) [] bs q n h k = absurd (omega arith)
slice-write_at_after (suc p) (x ∷ s) bs zero n h k = absurd (omega arith)
slice-write_at_after (suc p) (x ∷ s) bs (suc q) n h k =
    slice-write_at_after p s bs q n (omega arith) (omega arith)

take-write_at :
    (p : ℕ) (s bs : Bytes) (n : ℕ) → p ≤ length s → n ≤ p → take n (write_at p s bs) ≡ take n s
unfolding write_at
take-write_at p s bs zero h k = refl
take-write_at zero s bs (suc n) h k = absurd (omega arith)
take-write_at (suc p) [] bs (suc n) h k = absurd (omega arith)
take-write_at (suc p) (x ∷ s) bs (suc n) h k =
    ap (λ l. x ∷ l) (take-write_at p s bs n (omega arith) (omega arith))

pub slice-write_at_before :
    (p : ℕ) (s bs : Bytes) (q n : ℕ)
    → p ≤ length s
    → q + n ≤ p
    → slice (write_at p s bs) q n ≡ slice s q n
unfolding write_at
slice-write_at_before p s bs zero n h k = take-write_at p s bs n h (omega arith)
slice-write_at_before zero s bs (suc q) n h k = absurd (omega arith)
slice-write_at_before (suc p) [] bs (suc q) n h k = absurd (omega arith)
slice-write_at_before (suc p) (x ∷ s) bs (suc q) n h k =
    slice-write_at_before p s bs q n (omega arith) (omega arith)

length-overwrite : (s bs : Bytes) → length bs ≤ length s → length (overwrite s bs) ≡ length s
unfolding overwrite
length-overwrite s [] h = refl
length-overwrite [] (b ∷ bs) h = absurd (omega arith)
length-overwrite (x ∷ s) (b ∷ bs) h = ap suc (length-overwrite s bs (omega arith))

pub length-write_at_inside :
    (p : ℕ) (s bs : Bytes) → p + length bs ≤ length s → length (write_at p s bs) ≡ length s
unfolding write_at
length-write_at_inside zero s bs h = length-overwrite s bs (omega arith)
length-write_at_inside (suc p) [] bs h = absurd (omega arith)
length-write_at_inside (suc p) (x ∷ s) bs h = ap suc (length-write_at_inside p s bs (omega arith))

pub length-write_at_end :
    (p : ℕ) (s bs : Bytes) → p ≡ length s → length (write_at p s bs) ≡ length s + length bs
unfolding write_at overwrite
length-write_at_end zero [] [] h = refl
length-write_at_end zero [] (b ∷ bs) h = omega arith
length-write_at_end zero (x ∷ s) bs h = absurd (omega arith)
length-write_at_end (suc p) [] bs h = absurd (omega arith)
length-write_at_end (suc p) (x ∷ s) bs h = omega (arith, length-write_at_end p s bs (omega arith))

pub length-slice : (s : Bytes) (q n : ℕ) → q + n ≤ length s → length (slice s q n) ≡ n
length-slice s q n h = omega (arith, length-take n (drop q s), length-drop q s)
