-- ===== src/Commands/Ranks.antt =====
-- A bound on the ranks of all clients, which commands keep.
use owop_server_for_heroku_g.Base.{ℕ, subst, sym, ◌≤◌, arith}
use owop_server_for_heroku_g.Client.{Client}
use owop_server_for_heroku_g.Client.Rank
use owop_server_for_heroku_g.Server.{Server}
use owop_server_for_heroku_g.Server.Kept.{Kept}
use owop_server_for_heroku_g.Server.Everyone.{Everyone, Everyone-kept}

module _ {F : Type 0} where
  abbrev pub AtMost : ℕ → Client F → Type 0
  AtMost r cl = cl.rank ≤ r

  -- No client has a rank above r, and no world gives one.
  abbrev pub RanksAtMost : ℕ → Server F → Type 0
  RanksAtMost r = Everyone (AtMost r) (λ n. n ≤ r)

  pub ranks_kept : (r : ℕ) → Rank.user ≤ r → Kept (RanksAtMost r) (AtMost r) (λ n. n ≤ r)
  ranks_kept r h =
      Everyone-kept (AtMost r) (λ n. n ≤ r) (λ cl cl' same gone v. subst (λ n. n ≤ r) (sym same) v)
        (λ cl cl' gone d v. d) (λ cl v. v) (λ m n below d. omega arith) h
