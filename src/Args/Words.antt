-- ===== src/Args/Words.antt =====
-- What `split_args` makes of a message.
use owop_server_for_heroku_g.Base.{
  ◌≡◌, ◌≢◌, refl, ap, ◌∙◌, false, List, [], ◌∷◌, ◌++◌, ◌==◌, All, Bool-cases, All-append,
  append_assoc, append-nil, inl, inr, if◌then◌else◌,
}
use owop_server_for_heroku_g.Base.Words.{Bytes}
use owop_server_for_heroku_g.Args.{space, push_word, split_loop, split_args, append_args, join_args}

abbrev pub Lacks : Bytes → Type 0
Lacks = All (λ c. (c == space) ≡ false)

-- A word is not empty and holds no space.
pub record IsWord (w : Bytes) : Type 0 where
  pub filled : w ≢ []
  pub unspaced : Lacks w

push_word-IsWord :
    (cur : Bytes) (args : List Bytes)
    → Lacks cur
    → All IsWord args
    → All IsWord (push_word cur args)
unfolding push_word
push_word-IsWord [] args h k = k
push_word-IsWord (c ∷ cur) args h k =
    All-append IsWord args _ k (record { filled = λ e. cc; unspaced = h }, tt)

split_loop-IsWord :
    (s cur : Bytes) (args : List Bytes)
    → Lacks cur
    → All IsWord args
    → All IsWord (split_loop s cur args)
unfolding split_loop
split_loop-IsWord [] cur args h k = push_word-IsWord cur args h k
split_loop-IsWord (c ∷ s) cur args h k = elim (Bool-cases (c == space)) [
  | inl gap ↦
      rw (gap, split_loop)
        (split_loop-IsWord s [] (push_word cur args) tt (push_word-IsWord cur args h k))
  | inr letter ↦
      rw (letter, split_loop)
        (split_loop-IsWord s (cur ++ c ∷ []) args
          (All-append (λ c. (c == space) ≡ false) cur _ h (letter, tt)) k)
]

-- Every argument is a word: not empty, and with no space in it.
pub split_args-IsWord : (msg : Bytes) → All IsWord (split_args msg)
unfolding split_args
split_args-IsWord [] = split_loop-IsWord (0 ∷ []) [] [] tt tt
split_args-IsWord (c ∷ s) = split_loop-IsWord (c ∷ s) [] [] tt tt

-- The text without its spaces.
abbrev pub letters : Bytes → Bytes
letters [] = []
letters (c ∷ s) = if c == space then letters s else c ∷ letters s

abbrev pub flatten : List Bytes → Bytes
flatten [] = []
flatten (w ∷ ws) = w ++ flatten ws

flatten-append : (ws vs : List Bytes) → flatten (ws ++ vs) ≡ flatten ws ++ flatten vs
flatten-append [] vs = refl
flatten-append (w ∷ ws) vs = simp (flatten-append ws vs, append_assoc)

flatten-push_word :
    (cur : Bytes) (args : List Bytes) → flatten (push_word cur args) ≡ flatten args ++ cur
unfolding push_word
flatten-push_word [] args = simp append-nil
flatten-push_word (c ∷ cur) args = simp (flatten-append, append-nil)

flatten-split_loop :
    (s cur : Bytes) (args : List Bytes)
    → flatten (split_loop s cur args) ≡ flatten args ++ (cur ++ letters s)
unfolding split_loop
flatten-split_loop [] cur args = simp (flatten-push_word, append-nil)
flatten-split_loop (c ∷ s) cur args = elim (Bool-cases (c == space)) [
  | inl gap ↦ rw (gap, split_loop) (simp (flatten-split_loop s, flatten-push_word, append_assoc))
  | inr letter ↦ rw (letter, split_loop) (simp (flatten-split_loop s, append_assoc))
]

-- Nothing but spaces is lost: the arguments of a message that is not empty, put together, are its
-- bytes other than spaces in their order.
pub flatten-split_args : (msg : Bytes) → msg ≢ [] → flatten (split_args msg) ≡ letters msg
unfolding split_args
flatten-split_args [] h = absurd (h refl)
flatten-split_args (c ∷ s) h = flatten-split_loop (c ∷ s) [] []

-- a separator before every argument
spaced : List Bytes → Bytes
spaced [] = []
spaced (a ∷ args) = space ∷ (a ++ spaced args)

append_args-spaced :
    (value : Bytes) (args : List Bytes) → append_args value args ≡ value ++ spaced args
unfolding append_args spaced
append_args-spaced value [] = simp append-nil
append_args-spaced value (a ∷ args) =
    simp (append_args-spaced (value ++ space ∷ a) args, append_assoc)

split_loop-word :
    (w s cur : Bytes) (args : List Bytes)
    → Lacks w
    → split_loop (w ++ s) cur args ≡ split_loop s (cur ++ w) args
unfolding split_loop
split_loop-word [] s cur args h = simp append-nil
split_loop-word (c ∷ w) s cur args (hc, h) =
    rw (hc, split_loop)
      (split_loop-word w s (cur ++ c ∷ []) args h
        ∙ ap (λ v. split_loop s v args) (append_assoc cur (c ∷ []) w))

push_word-IsWord_lem :
    (w : Bytes) (args : List Bytes) → IsWord w → push_word w args ≡ args ++ w ∷ []
unfolding push_word
push_word-IsWord_lem [] args h = absurd (h.filled refl)
push_word-IsWord_lem (c ∷ w) args h = refl

split_loop-spaced :
    (ws : List Bytes) (w : Bytes) (args : List Bytes)
    → IsWord w
    → All IsWord ws
    → split_loop (spaced ws) w args ≡ args ++ w ∷ ws
unfolding split_loop spaced
split_loop-spaced [] w args h k = push_word-IsWord_lem w args h
split_loop-spaced (v ∷ ws) w args h (hv, k) =
    split_loop-word v (spaced ws) [] (push_word w args) hv.unspaced
    ∙ split_loop-spaced ws v (push_word w args) hv k
    ∙ ap (λ l. l ++ v ∷ ws) (push_word-IsWord_lem w args h)
    ∙ append_assoc args (w ∷ []) (v ∷ ws)

split_args-split_loop : (s : Bytes) → s ≢ [] → split_args s ≡ split_loop s [] []
unfolding split_args
split_args-split_loop [] h = absurd (h refl)
split_args-split_loop (c ∷ s) h = refl

append-ne-nil : (w s : Bytes) → w ≢ [] → w ++ s ≢ []
append-ne-nil [] s h = absurd (h refl)
append-ne-nil (c ∷ w) s h = λ e. cc

-- For one word or more, each of them not empty and without a space, splitting what the loops of
-- the commands join gives the same words.
pub split_args-join_args :
    (ws : List Bytes) → ws ≢ [] → All IsWord ws → split_args (join_args ws) ≡ ws
unfolding join_args
split_args-join_args [] h k = absurd (h refl)
split_args-join_args (w ∷ ws) h (hw, k) =
    ap split_args (append_args-spaced w ws)
    ∙ split_args-split_loop (w ++ spaced ws) (append-ne-nil w (spaced ws) hw.filled)
    ∙ split_loop-word w (spaced ws) [] [] hw.unspaced
    ∙ split_loop-spaced ws w [] hw k
