-- ===== src/Commands/Reach/Users.antt =====
-- What those who are no moderators can do to others.
use owop_server_for_heroku_g.Base.{
  ℕ, ◌≡◌, refl, sym, ap, subst, ◌∙◌, ◌<◌, Bool, false, not, ◌&&◌, ◌||◌, Option, none, some, List,
  [], ◌∷◌, ◌==◌, ltb, leb, either, maybe, arith, length,
}
use owop_server_for_heroku_g.Base.Words.{Bytes, codes}
use owop_server_for_heroku_g.Base.Eq.{nat_eq, bytes_eq, eq_bytes}
use owop_server_for_heroku_g.Base.Assoc.{lookup, Maybe, AllValues, lookup-Maybe}
use owop_server_for_heroku_g.Limiter.{Float}
use owop_server_for_heroku_g.Args.{split_args, join_args}
use owop_server_for_heroku_g.Args.Numbers.{read_u32}
use owop_server_for_heroku_g.Database.Handles.{Os}
use owop_server_for_heroku_g.World.Props.{is_pass}
use owop_server_for_heroku_g.Client.{Client, is_admin, is_mod, set_nick}
use owop_server_for_heroku_g.Client.Rank
use owop_server_for_heroku_g.Server.{Server, SocketInfo, admintell}
use owop_server_for_heroku_g.Server.Find.{Found, client_at, get_cli}
use owop_server_for_heroku_g.Utf8.{get_utf8_strlen}
use owop_server_for_heroku_g.Commands.Table.{
  Command, usrcmds, find_command, find_user, find_default,
}
use owop_server_for_heroku_g.Commands.Caller.{Caller, caller_at, with_target}
use owop_server_for_heroku_g.Commands.Speech.{is_modpw, is_adminpw}
use owop_server_for_heroku_g.Commands.Speech
use owop_server_for_heroku_g.Commands.Rights
use owop_server_for_heroku_g.Commands.Rights.{did_player, named, no_newlines}
use owop_server_for_heroku_g.Commands.Moves
use owop_server_for_heroku_g.Commands.Exec.{help, call, exec_args, exec}
use owop_server_for_heroku_g.Commands.Fuel.{exec_lem}
use owop_server_for_heroku_g.Commands.Reach.{
  Untouched, put_player-Untouched, kick-Untouched, send_to-Untouched,
}

-- The commands of the first table.
abbrev IsCommon : Command → Type 0
IsCommon Command.nick = Unit
IsCommon Command.pass = Unit
IsCommon Command.tell = Unit
IsCommon Command.help = Unit
IsCommon Command.modlogin = Unit
IsCommon Command.adminlogin = Unit
IsCommon Command.spawn = Unit
IsCommon cmd = ⊥

usrcmds-IsCommon : AllValues IsCommon usrcmds
usrcmds-IsCommon = (tt, (tt, (tt, (tt, (tt, (tt, (tt, tt)))))))

find_default-IsCommon : (name : Bytes) → Maybe IsCommon (find_default name)
unfolding find_default
find_default-IsCommon name =
    either (Maybe IsCommon)
      (eq_bytes name (codes "modlogin")
        || (eq_bytes name (codes "adminlogin") || eq_bytes name (codes "pass")))
      (lookup name usrcmds) none (lookup-Maybe IsCommon name usrcmds usrcmds-IsCommon) tt

find_user-IsCommon : (name : Bytes) → Maybe IsCommon (find_user name)
unfolding find_user
find_user-IsCommon name =
    maybe (Maybe IsCommon) (lookup name usrcmds) _ _ (find_default-IsCommon name) (λ cmd found.
      subst (Maybe IsCommon) found (lookup-Maybe IsCommon name usrcmds usrcmds-IsCommon))

find_command-IsCommon :
    (rank : ℕ) (name : Bytes) → rank < Rank.moderator → Maybe IsCommon (find_command rank name)
unfolding find_command
find_command-IsCommon rank name h =
    let no_admin : (rank == Rank.admin) ≡ false = ground arith in
    let no_mod : (rank == Rank.moderator) ≡ false = ground arith in
    rw (no_admin, no_mod, find_command)
      (either (Maybe IsCommon) (rank == Rank.user) _ _ (find_user-IsCommon name)
        (find_default-IsCommon name))

module _ {F : Type 0} ⦃fl : Float F⦄ (other : ℕ) (c : Caller F) (ne : (c.ws == other) ≡ false)
    (srv : Server F) where
  abbrev Same : Server F → Type 0
  Same = Untouched other srv

  nick-Untouched : (args : List Bytes) → Same (Rights.nick c args srv)
  unfolding Rights.nick named
  nick-Untouched (cmd ∷ n ∷ args) =
      let name = no_newlines (join_args (n ∷ args)) in
      let named_so : (nick : Bytes) → Same (named c nick name srv) =
        λ nick. put_player-Untouched other srv c.ws c.si (set_nick nick c.cl) srv ne refl in
      either Same (ltb (length name) 1) _ _ refl (
        either Same (is_admin c.cl) _ _ (named_so name) (
          either Same (is_mod c.cl && leb (get_utf8_strlen name) 40) _ _ (named_so name)
            (either Same (ltb 0 (get_utf8_strlen name)) _ _ (named_so _) refl)))
  nick-Untouched args = put_player-Untouched other srv c.ws c.si _ srv ne refl

  pass-Untouched : (args : List Bytes) → Same (Rights.pass c args srv)
  unfolding Rights.pass did_player
  pass-Untouched (cmd ∷ a ∷ args) =
      either Same (is_pass c.w _) _ _ (put_player-Untouched other srv c.ws c.si _ srv ne refl)
        (kick-Untouched other srv c.ws srv ne refl)
  pass-Untouched args = refl

  tell-Untouched : (args : List Bytes) → Same (Speech.tell c args srv)
  unfolding Speech.tell with_target
  tell-Untouched (cmd ∷ id ∷ m ∷ msg) =
      maybe Same (read_u32 id) _ _ refl
        (λ n e. maybe Same (get_cli n c.w srv) _ _ refl (λ t found. refl))
  tell-Untouched args = refl

  modlogin-Untouched : (args : List Bytes) → Same (Rights.modlogin c args srv)
  unfolding Rights.modlogin did_player admintell
  modlogin-Untouched (cmd ∷ pw ∷ []) =
      either Same (not (is_mod c.cl) && is_modpw pw srv) _ _
        (put_player-Untouched other srv c.ws c.si _ srv ne refl) refl
  modlogin-Untouched args = refl

  adminlogin-Untouched : (args : List Bytes) → Same (Rights.adminlogin c args srv)
  unfolding Rights.adminlogin did_player
  adminlogin-Untouched (cmd ∷ pw ∷ []) =
      either Same (is_adminpw pw srv) _ _ (put_player-Untouched other srv c.ws c.si _ srv ne refl)
        refl
  adminlogin-Untouched args = refl

  call-Untouched :
      (os : Os) (junk : Bytes) (run : ℕ → Bytes → Server F → Server F) (cmd : Command)
      (args : List Bytes)
      → IsCommon cmd
      → Same (call os junk run cmd c args srv)
  unfolding call help Moves.spawn
  call-Untouched os junk run Command.nick args common = nick-Untouched args
  call-Untouched os junk run Command.pass args common = pass-Untouched args
  call-Untouched os junk run Command.tell args common = tell-Untouched args
  call-Untouched os junk run Command.help args common = refl
  call-Untouched os junk run Command.modlogin args common = modlogin-Untouched args
  call-Untouched os junk run Command.adminlogin args common = adminlogin-Untouched args
  call-Untouched os junk run Command.spawn args common =
      send_to-Untouched other srv c.ws c.si c.cl 0 0 srv ne refl
  call-Untouched os junk run cmd args common = absurd common

module _ {F : Type 0} where
  -- The caller that is found is the client of the socket.
  Calls : ℕ → Client F → Option (Caller F) → Type 0
  Calls ws cl none = Unit
  Calls ws cl (some c) = (c.ws ≡ ws) × (c.cl ≡ cl)

  client_at-some :
      (ws : ℕ) (socks : List (ℕ × SocketInfo F)) (si : SocketInfo F) (cl : Client F)
      → lookup ws socks ≡ some si
      → si.player ≡ some cl
      → client_at ws socks ≡ some (record { ws = ws; si = si; cl = cl })
  unfolding client_at
  client_at-some ws socks si cl there plays =
      rw (there, client_at)
        (ap
          (λ o. elim o as (λ x. Option (Found F)) [
            | none ↦ none
            | some cl ↦ some (record { ws = ws; si = si; cl = cl })
          ])
          plays)

  caller_at-Calls :
      (ws : ℕ) (srv : Server F) (si : SocketInfo F) (cl : Client F)
      → lookup ws srv.socks ≡ some si
      → si.player ≡ some cl
      → Calls ws cl (caller_at ws srv)
  unfolding caller_at Calls
  caller_at-Calls ws srv si cl there plays =
      maybe (Calls ws cl) (client_at ws srv.socks) _ _ tt (λ t e.
        maybe (Calls ws cl) (lookup t.cl.wrld srv.worlds) _ _ tt (λ w found. (
          refl,
          ap (λ o. elim o as (λ x. Client F) [ none ↦ cl | some t ↦ t.cl ])
              (sym e ∙ client_at-some ws srv.socks si cl there plays),
        )))

module _ {F : Type 0} ⦃fl : Float F⦄ (os : Os) (junk : Bytes) where
  exec_args-Untouched :
      (run : ℕ → Bytes → Server F → Server F) (ws other : ℕ) (args : List Bytes) (srv : Server F)
      (si : SocketInfo F) (cl : Client F)
      → (ws == other) ≡ false
      → lookup ws srv.socks ≡ some si
      → si.player ≡ some cl
      → cl.rank < Rank.moderator
      → Untouched other srv (exec_args os junk run ws args srv).1
  unfolding exec_args Calls
  exec_args-Untouched run ws other [] srv si cl ne there plays low = refl
  exec_args-Untouched run ws other (name ∷ args) srv si cl ne there plays low =
      let Same : Bool × Server F → Type 0 = λ did. Untouched other srv did.1 in
      maybe Same (caller_at ws srv) _ _ refl (λ c calls.
        let (same_ws, same_cl) =
          subst (Calls ws cl) calls (caller_at-Calls ws srv si cl there plays) in
        let rank = ap (λ (x : Client F). x.rank) same_cl in
        let ne' = ap (λ w. w == other) same_ws ∙ ne in
        maybe Same (find_command c.cl.rank name) _ _ refl (λ cmd found.
          call-Untouched other c ne' srv os junk run cmd (name ∷ args) (
            subst (Maybe IsCommon) found
              (find_command-IsCommon c.cl.rank name (omega (arith, rank, low))))))

  -- Whatever a client below the rank of a moderator runs as a command, every other connection stays
  -- and its client is as it was, its rank, its nick and its rights included.
  pub exec-Untouched :
      (ws other : ℕ) (msg : Bytes) (srv : Server F) (si : SocketInfo F) (cl : Client F)
      → (ws == other) ≡ false
      → lookup ws srv.socks ≡ some si
      → si.player ≡ some cl
      → cl.rank < Rank.moderator
      → lookup other (exec os junk ws msg srv).1.socks ≡ lookup other srv.socks
  exec-Untouched ws other msg srv si cl ne there plays low =
      ap (λ did. lookup other did.1.socks) (exec_lem os junk ws msg srv)
      ∙ exec_args-Untouched (λ t line s. (exec os junk t line s).1) ws other (split_args msg) srv si
          cl ne there plays low
