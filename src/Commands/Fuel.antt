-- ===== src/Commands/Fuel.antt =====
-- `doas` runs `exec` again: why this ends, and what `exec` does as the code says it.
use owop_server_for_heroku_g.Base.{
  ℕ, zero, suc, ◌≡◌, refl, ap, sym, ◌∙◌, ◌≤◌, ◌+◌, Bool, true, false, none, some, List, [], ◌∷◌,
  arith, length, All,
}
use owop_server_for_heroku_g.Base.Words.{Bytes}
use owop_server_for_heroku_g.Limiter.{Float}
use owop_server_for_heroku_g.Args.{split_args, join_args}
use owop_server_for_heroku_g.Args.Words.{IsWord, split_args-IsWord, split_args-join_args}
use owop_server_for_heroku_g.Database.Handles.{Os}
use owop_server_for_heroku_g.Server.{Server}
use owop_server_for_heroku_g.Server.Find.{Found}
use owop_server_for_heroku_g.Commands.Table.{Command, find_command}
use owop_server_for_heroku_g.Commands.Caller.{Caller, caller_at, with_target}
use owop_server_for_heroku_g.Commands.Exec.{call, doas, exec_args, exec_loop, exec}

module _ {F : Type 0} ⦃fl : Float F⦄ (os : Os) (junk : Bytes) where
  -- Two ways to run a command that agree where `doas` uses them.
  unfoldable Agree :
      (ℕ → Bytes → Server F → Server F) → (ℕ → Bytes → Server F → Server F) → List Bytes → Type 0
  Agree f g (cmd ∷ id ∷ m ∷ msg) =
      (ws : ℕ) (srv : Server F) → f ws (join_args (m ∷ msg)) srv ≡ g ws (join_args (m ∷ msg)) srv
  Agree f g args = Unit

  with_target-agree :
      (c : Caller F) (id : Bytes) (srv missing : Server F) (f g : ℕ → Found F → Server F)
      → ((n : ℕ) (t : Found F) → f n t ≡ g n t)
      → with_target c id srv missing f ≡ with_target c id srv missing g
  with_target-agree c id srv missing f g h = ap (with_target c id srv missing) (λ i n t. h n t i)

  call-Agree :
      (f g : ℕ → Bytes → Server F → Server F) (cmd : Command) (c : Caller F) (args : List Bytes)
      (srv : Server F)
      → Agree f g args
      → call os junk f cmd c args srv ≡ call os junk g cmd c args srv
  unfolding call doas Agree
  call-Agree f g Command.doas c (cmd ∷ id ∷ m ∷ msg) srv h =
      with_target-agree c id srv srv _ _ (λ n t. h t.ws srv)
  call-Agree f g Command.doas c [] srv h = refl
  call-Agree f g Command.doas c (cmd ∷ []) srv h = refl
  call-Agree f g Command.doas c (cmd ∷ id ∷ []) srv h = refl
  call-Agree f g cmd c args srv h = refl

  exec_args-Agree :
      (f g : ℕ → Bytes → Server F → Server F) (ws : ℕ) (args : List Bytes) (srv : Server F)
      → Agree f g args
      → exec_args os junk f ws args srv ≡ exec_args os junk g ws args srv
  unfolding exec_args
  exec_args-Agree f g ws [] srv h = refl
  exec_args-Agree f g ws (name ∷ args) srv h = λ i.
      elim (caller_at ws srv) as (λ x. Bool × Server F) [
        | none ↦ (false, srv)
        | some c ↦ elim (find_command c.cl.rank name) as (λ x. Bool × Server F) [
          | none ↦ (false, srv)
          | some cmd ↦ (true, call-Agree f g cmd c (name ∷ args) srv h i)
        ]
      ]

  -- `exec_loop` with the fuel n, as `doas` uses it.
  abbrev run_with : ℕ → ℕ → Bytes → Server F → Server F
  run_with n ws msg srv = (exec_loop os junk n ws msg srv).1

  -- It is enough that they agree on messages of fewer words.
  shorter-Agree :
      (f g : ℕ → Bytes → Server F → Server F) (args : List Bytes)
      → All IsWord args
      → ((ws : ℕ) (msg : Bytes) (srv : Server F)
          → length (split_args msg) + 2 ≤ length args
          → f ws msg srv ≡ g ws msg srv)
      → Agree f g args
  unfolding Agree
  shorter-Agree f g [] h same = tt
  shorter-Agree f g (cmd ∷ []) h same = tt
  shorter-Agree f g (cmd ∷ id ∷ []) h same = tt
  shorter-Agree f g (cmd ∷ id ∷ a ∷ msg) (hc, (hi, h)) same = λ ws srv.
      let size = ap length (split_args-join_args (a ∷ msg) (λ e. cc) h) in
      same ws (join_args (a ∷ msg)) srv (omega (arith, size))

  exec_args-none :
      (f : ℕ → Bytes → Server F → Server F) (ws : ℕ) (args : List Bytes) (srv : Server F)
      → length args ≤ 0
      → exec_args os junk f ws args srv ≡ (false, srv)
  unfolding exec_args
  exec_args-none f ws [] srv h = refl
  exec_args-none f ws (a ∷ args) srv h = absurd (omega arith)

  exec_loop-agree :
      (n m ws : ℕ) (msg : Bytes) (srv : Server F)
      → length (split_args msg) ≤ n
      → length (split_args msg) ≤ m
      → exec_loop os junk n ws msg srv ≡ exec_loop os junk m ws msg srv
  unfolding exec_loop
  exec_loop-agree zero zero ws msg srv hn hm = refl
  exec_loop-agree zero (suc m) ws msg srv hn hm =
      sym (exec_args-none (run_with m) ws (split_args msg) srv hn)
  exec_loop-agree (suc n) zero ws msg srv hn hm =
      exec_args-none (run_with n) ws (split_args msg) srv hm
  exec_loop-agree (suc n) (suc m) ws msg srv hn hm =
      exec_args-Agree (run_with n) (run_with m) ws (split_args msg) srv (
        shorter-Agree (run_with n) (run_with m) (split_args msg) (split_args-IsWord msg)
          (λ t line s short.
            ap (λ r. r.1) (exec_loop-agree n m t line s (omega arith) (omega arith))))

  pub exec_lem :
      (ws : ℕ) (msg : Bytes) (srv : Server F)
      → exec os junk ws msg srv
        ≡ exec_args os junk (λ t line s. (exec os junk t line s).1) ws (split_args msg) srv
  unfolding exec exec_loop
  exec_lem ws msg srv =
      let n = length (split_args msg) in
      exec_loop-agree n (suc n) ws msg srv (omega arith) (omega arith)
      ∙ exec_args-Agree (run_with n) (λ t line s. (exec os junk t line s).1) ws (split_args msg) srv
          (shorter-Agree (run_with n) (λ t line s. (exec os junk t line s).1) (split_args msg)
            (split_args-IsWord msg)
            (λ t line s short.
              ap (λ r. r.1)
                (exec_loop-agree n (length (split_args line)) t line s (omega arith)
                  (omega arith))))
