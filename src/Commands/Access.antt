-- ===== src/Commands/Access.antt =====
-- Which commands a client can run.
use owop_server_for_heroku_g.Base.{
  ℕ, ◌≡◌, refl, ap, sym, subst, ◌∙◌, Bool, true, false, Option, none, some, List, [], ◌∷◌, ◌++◌,
  ◌==◌, if◌then◌else◌, arith, Bool-cases, Option-cases, inl, inr,
}
use owop_server_for_heroku_g.Base.Words.{Bytes, codes}
use owop_server_for_heroku_g.Base.Eq.{bytes_eq, eq_bytes, eq_bytes_iff}
use owop_server_for_heroku_g.Base.Assoc.{lookup, lookup-append}
use owop_server_for_heroku_g.Client.Rank
use owop_server_for_heroku_g.Commands.Table.{
  Command, usrcmds, modcmds, admincmds, find_default, find_user, find_moderator, find_admin,
  find_command,
}

abbrev logins : List (Bytes × Command)
logins =
    (codes "modlogin", Command.modlogin)
    ∷ (codes "adminlogin", Command.adminlogin)
    ∷ (codes "pass", Command.pass)
    ∷ []

-- One table for each rank, the rights of the ranks below it included.
abbrev pub commands_of : ℕ → List (Bytes × Command)
commands_of rank =
    if rank == Rank.admin
    then admincmds ++ (modcmds ++ usrcmds)
    else if rank == Rank.moderator
    then modcmds ++ usrcmds
    else if rank == Rank.user
    then usrcmds
    else logins

eq_bytes_comm : (xs ys : Bytes) → eq_bytes xs ys ≡ eq_bytes ys xs
unfolding eq_bytes
eq_bytes_comm [] [] = refl
eq_bytes_comm [] (y ∷ ys) = refl
eq_bytes_comm (x ∷ xs) [] = refl
eq_bytes_comm (x ∷ xs) (y ∷ ys) = ground (arith, eq_bytes_comm xs ys)

if_none : (b : Bool) (o : Option Command) → o ≡ none → (if b then o else none) ≡ none
if_none true o h = h
if_none false o h = refl

-- A name that is one of the logins, or none of them.
login-cases :
    (name : Bytes) (P : Bytes → Type 0)
    → P (codes "modlogin")
    → P (codes "adminlogin")
    → P (codes "pass")
    → (eq_bytes (codes "modlogin") name ≡ false
        → eq_bytes (codes "adminlogin") name ≡ false
        → eq_bytes (codes "pass") name ≡ false
        → P name)
    → P name
login-cases name P p q r s = elim (Bool-cases (eq_bytes (codes "modlogin") name)) [
  | inl e ↦ subst P ((eq_bytes_iff (codes "modlogin") name).0 e) p
  | inr a ↦ elim (Bool-cases (eq_bytes (codes "adminlogin") name)) [
    | inl e ↦ subst P ((eq_bytes_iff (codes "adminlogin") name).0 e) q
    | inr b ↦ elim (Bool-cases (eq_bytes (codes "pass") name)) [
      | inl e ↦ subst P ((eq_bytes_iff (codes "pass") name).0 e) r
      | inr d ↦ s a b d
    ]
  ]
]

find_user_lem : (name : Bytes) → find_user name ≡ lookup name usrcmds
unfolding find_user find_default
find_user_lem name = elim (Option-cases (lookup name usrcmds)) [
  | inl missing ↦ rw (missing, find_user) (if_none _ (lookup name usrcmds) missing)
  | inr (cmd, there) ↦ rw (there, find_user) refl
]

find_default_lem : (name : Bytes) → find_default name ≡ lookup name logins
unfolding find_default lookup codes eq_bytes
find_default_lem name =
    login-cases name (λ n. find_default n ≡ lookup n logins) refl refl refl
      (λ a b c.
        rw
          (
            eq_bytes_comm name (codes "modlogin"),
            eq_bytes_comm name (codes "adminlogin"),
            eq_bytes_comm name (codes "pass"),
            a,
            b,
            c,
            find_default,
            lookup,
          )
          refl)

find_moderator_lem : (name : Bytes) → find_moderator name ≡ lookup name (modcmds ++ usrcmds)
unfolding find_moderator
find_moderator_lem name =
    ap (λ o. elim (lookup name modcmds) as (λ x. Option Command) [ none ↦ o | some cmd ↦ some cmd ])
      (find_user_lem name)
    ∙ sym (lookup-append name modcmds usrcmds)

find_admin_lem : (name : Bytes) → find_admin name ≡ lookup name (admincmds ++ (modcmds ++ usrcmds))
unfolding find_admin
find_admin_lem name =
    ap
      (λ o. elim (lookup name admincmds) as (λ x. Option Command) [
        | none ↦ o
        | some cmd ↦ some cmd
      ])
      (find_moderator_lem name)
    ∙ sym (lookup-append name admincmds (modcmds ++ usrcmds))

-- The search of `exec`, which tries one table after another from the rank of the client down, finds
-- what one table for that rank holds: for an administrator the commands of administrators,
-- moderators and users, for a moderator the latter two, for a user only its own, and for any other
-- rank the three commands `modlogin`, `adminlogin` and `pass`. In such a table the first entry of a
-- name counts.
pub find_command-lookup :
    (rank : ℕ) (name : Bytes) → find_command rank name ≡ lookup name (commands_of rank)
unfolding find_command
find_command-lookup rank name =
    ground (
      arith,
      find_admin_lem name,
      find_moderator_lem name,
      find_user_lem name,
      find_default_lem name,
    )
