-- ===== src/Args/Tests.antt =====
-- Runs of `split_args`.
use owop_server_for_heroku_g.Base.{◌≡◌, refl, List, [], ◌∷◌, All}
use owop_server_for_heroku_g.Base.Words.{Bytes, codes}
use owop_server_for_heroku_g.Args.{split_args, join_args}
use owop_server_for_heroku_g.Args.Words.{IsWord, split_args-IsWord, split_args-join_args}

abbrev message : Bytes
message = 32 ∷ 97 ∷ 98 ∷ 32 ∷ 32 ∷ 99 ∷ []

abbrev words : List Bytes
words = (97 ∷ 98 ∷ []) ∷ (99 ∷ []) ∷ []

split : split_args (codes "tp  1 2 ") ≡ codes "tp" ∷ codes "1" ∷ codes "2" ∷ []
unfolding split_args codes
split = refl

-- The empty message has one argument, a NUL.
empty : split_args [] ≡ (0 ∷ []) ∷ []
unfolding split_args
empty = refl

split_args-IsWord_example : All IsWord (split_args message)
split_args-IsWord_example = split_args-IsWord message

words-IsWord : All IsWord words
words-IsWord = (
  record { filled = cc; unspaced = (refl, (refl, tt)) },
  (record { filled = cc; unspaced = (refl, tt) }, tt),
)

split_args-join_args_example : split_args (join_args words) ≡ words
split_args-join_args_example = split_args-join_args words (cc) words-IsWord
