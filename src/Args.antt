-- ===== src/Args.antt =====
-- `Commands::split_args` of commands.cpp, and the loops in the commands that put arguments back
-- together with one space between two.
pub mod Words
pub mod Numbers
mod Tests
use owop_server_for_heroku_g.Base.{ℕ, List, [], ◌∷◌, ◌++◌, true, false, ◌==◌}
use owop_server_for_heroku_g.Base.Words.{Bytes}

abbrev pub space : ℕ
space = 32

-- args.push_back(std::string(msgp + j, i - j)), if i - j > 0.
pub push_word : Bytes → List Bytes → List Bytes
push_word [] args = args
push_word (c ∷ cur) args = args ++ (c ∷ cur) ∷ []

-- The loop from index i on; `cur` is the text from index j up to i.
pub split_loop : Bytes → Bytes → List Bytes → List Bytes
unfolding push_word
split_loop [] cur args = push_word cur args
split_loop (c ∷ s) cur args = elim (c == space) [
  | true ↦ split_loop s [] (push_word cur args)
  | false ↦ split_loop s (cur ++ c ∷ []) args
]

-- The loop tests its condition after the first round, which for the empty text reads the NUL behind
-- it.
unfoldable pub split_args : Bytes → List Bytes
unfolding split_loop
split_args [] = split_loop (0 ∷ []) [] []
split_args (c ∷ s) = split_loop (c ∷ s) [] []

pub append_args : Bytes → List Bytes → Bytes
append_args value [] = value
append_args value (a ∷ args) = append_args (value ++ space ∷ a) args

-- `value = args[k]; for (i = k + 1; …) value.append(" " + args[i])`, given the arguments from k on.
unfoldable pub join_args : List Bytes → Bytes
unfolding append_args
join_args [] = []
join_args (a ∷ args) = append_args a args
