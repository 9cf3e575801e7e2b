-- ===== src/Utf8/Units.antt =====
-- `getUTF8strlen` counts UTF-16 code units: two for a sequence of four bytes, one for a shorter one.
use owop_server_for_heroku_g.Base.{
  ℕ, ◌+◌, ◌≤◌, ◌≡◌, true, false, List, [], ◌∷◌, ◌++◌, arith, ◌==◌, if◌then◌else◌, length, All,
  append_assoc, append-nil, sym, ap, ◌∙◌,
}
use owop_server_for_heroku_g.Base.Words.{Bytes}
use owop_server_for_heroku_g.Utf8.{size_max, is_continuation, utf8_loop, get_utf8_strlen}

-- One encoded character: a byte that is no continuation, and the continuation bytes behind it.
pub record Sequence : Type 0 where
  pub lead : ℕ
  pub rest : Bytes

abbrev pub AreContinuations : Bytes → Type 0
AreContinuations = All (λ c. is_continuation c ≡ true)

pub record IsSequence (most : ℕ) (q : Sequence) : Type 0 where
  pub leads : is_continuation q.lead ≡ false
  pub continues : AreContinuations q.rest
  pub short : length q.rest ≤ most

abbrev pub encode : List Sequence → Bytes
encode [] = []
encode (q ∷ qs) = q.lead ∷ (q.rest ++ encode qs)

-- UTF-16 needs a surrogate pair for what UTF-8 writes in four bytes.
abbrev pub units : List Sequence → ℕ
units [] = 0
units (q ∷ qs) = (if length q.rest == 3 then 2 else 1) + units qs

-- One round of the loop.
loop_lead :
    (c : ℕ) (s : Bytes) (j x : ℕ)
    → is_continuation c ≡ false
    → x ≤ 4
    → utf8_loop (c ∷ s) j x ≡ utf8_loop s (if x == 4 then j + 2 else j + 1) 1
unfolding utf8_loop
loop_lead c s j x lead short = ground arith

loop_continuation :
    (c : ℕ) (s : Bytes) (j x : ℕ)
    → is_continuation c ≡ true
    → x ≤ 4
    → utf8_loop (c ∷ s) j x ≡ utf8_loop s j (x + 1)
unfolding utf8_loop
loop_continuation c s j x inner short = ground arith

loop-continuations :
    (cs s : Bytes) (j x : ℕ)
    → AreContinuations cs
    → x + length cs ≤ 5
    → utf8_loop (cs ++ s) j x ≡ utf8_loop s j (x + length cs)
loop-continuations [] s j x h short = ap (utf8_loop s j) (omega arith)
loop-continuations (c ∷ cs) s j x (hc, h) short =
    loop_continuation c (cs ++ s) j x hc (omega arith)
    ∙ loop-continuations cs s j (x + 1) h (omega arith)
    ∙ ap (utf8_loop s j) (omega arith)

-- The bytes of one character on top of what the loop has counted.
loop-sequence :
    (q : Sequence) (s : Bytes) (j x : ℕ)
    → IsSequence 4 q
    → x ≤ 4
    → utf8_loop (q.lead ∷ (q.rest ++ s)) j x
      ≡ utf8_loop s (if x == 4 then j + 2 else j + 1) (1 + length q.rest)
loop-sequence q s j x h short =
    loop_lead q.lead (q.rest ++ s) j x h.leads short
    ∙ loop-continuations q.rest s (if x == 4 then j + 2 else j + 1) 1 h.continues
        (omega (arith, h.short))

widen : (q : Sequence) → IsSequence 3 q → IsSequence 4 q
widen q h = record { leads = h.leads; continues = h.continues; short = omega (arith, h.short) }

loop-encode :
    (qs : List Sequence) (j x : ℕ)
    → All (IsSequence 3) qs
    → x ≤ 4
    → utf8_loop (encode qs) j x ≡ (if x == 4 then j + 1 else j) + units qs
unfolding utf8_loop
loop-encode [] j x h short = omega arith
loop-encode (q ∷ qs) j x (hq, h) short =
    loop-sequence q (encode qs) j x (widen q hq) short
    ∙ loop-encode qs (if x == 4 then j + 2 else j + 1) (1 + length q.rest) h
        (omega (arith, hq.short))
    ∙ ground arith

-- For well-formed UTF-8, sequences of a first byte and up to three continuation bytes, the result is
-- the number of UTF-16 code units of the text: 2 for each sequence of four bytes, 1 for each other.
pub get_utf8_strlen-encode :
    (qs : List Sequence) → All (IsSequence 3) qs → get_utf8_strlen (encode qs) ≡ units qs
unfolding get_utf8_strlen
get_utf8_strlen-encode qs h = loop-encode qs 0 1 h (omega arith) ∙ omega arith

loop-reject :
    (qs : List Sequence) (q : Sequence) (c : ℕ) (s : Bytes) (j x : ℕ)
    → All (IsSequence 3) qs
    → IsSequence 4 q
    → length q.rest ≡ 4
    → x ≤ 4
    → utf8_loop (encode qs ++ q.lead ∷ (q.rest ++ c ∷ s)) j x ≡ size_max
unfolding utf8_loop
loop-reject [] q c s j x h hq e short = loop-sequence q (c ∷ s) j x hq short ∙ ground arith
loop-reject (p ∷ qs) q c s j x (hp, h) hq e short =
    ap (λ t. utf8_loop (p.lead ∷ t) j x) (append_assoc p.rest (encode qs) _)
    ∙ loop-sequence p _ j x (widen p hp) short
    ∙ loop-reject qs q c s _ (1 + length p.rest) h hq e (omega (arith, hp.short))

-- A sequence with four continuation bytes is reported as invalid, with SIZE_MAX, wherever in the
-- text it stands, provided that one more byte follows it.
pub get_utf8_strlen_invalid :
    (qs : List Sequence) (q : Sequence) (c : ℕ) (s : Bytes)
    → All (IsSequence 3) qs
    → IsSequence 4 q
    → length q.rest ≡ 4
    → get_utf8_strlen (encode qs ++ q.lead ∷ (q.rest ++ c ∷ s)) ≡ size_max
unfolding get_utf8_strlen
get_utf8_strlen_invalid qs q c s h hq e = loop-reject qs q c s 0 1 h hq e (omega arith)

loop-last :
    (qs : List Sequence) (q : Sequence) (j x : ℕ)
    → All (IsSequence 3) qs
    → IsSequence 4 q
    → length q.rest ≡ 4
    → x ≤ 4
    → utf8_loop (encode qs ++ q.lead ∷ (q.rest ++ [])) j x
      ≡ (if x == 4 then j + 1 else j) + units qs + 1
unfolding utf8_loop
loop-last [] q j x h hq e short = loop-sequence q [] j x hq short ∙ ground arith
loop-last (p ∷ qs) q j x (hp, h) hq e short =
    ap (λ t. utf8_loop (p.lead ∷ t) j x) (append_assoc p.rest (encode qs) _)
    ∙ loop-sequence p _ j x (widen p hp) short
    ∙ loop-last qs q _ (1 + length p.rest) h hq e (omega (arith, hp.short))
    ∙ ground arith

-- A sequence with four continuation bytes at the very end of a well-formed text is not reported as
-- invalid: it counts as one character.
pub get_utf8_strlen_unchecked_end :
    (qs : List Sequence) (q : Sequence)
    → All (IsSequence 3) qs
    → IsSequence 4 q
    → length q.rest ≡ 4
    → get_utf8_strlen (encode qs ++ q.lead ∷ q.rest) ≡ units qs + 1
unfolding get_utf8_strlen
get_utf8_strlen_unchecked_end qs q h hq e =
    ap (λ r. get_utf8_strlen (encode qs ++ q.lead ∷ r)) (sym (append-nil q.rest))
    ∙ loop-last qs q 0 1 h hq e (omega arith)
    ∙ omega arith
