-- ===== src/Commands/Exec.antt =====
-- Running a command: `Commands::exec` and the commands `help` and `doas`.
use owop_server_for_heroku_g.Base.{
  ℕ, zero, suc, Bool, true, false, none, some, List, [], ◌∷◌, ◌++◌, length,
}
use owop_server_for_heroku_g.Base.Words.{Bytes, codes}
use owop_server_for_heroku_g.Limiter.{Float}
use owop_server_for_heroku_g.Args.{split_args, join_args}
use owop_server_for_heroku_g.Database.Handles.{Os}
use owop_server_for_heroku_g.Server.{Server}
use owop_server_for_heroku_g.Commands.Table.{Command, get_cmd_list, find_command}
use owop_server_for_heroku_g.Commands.Caller.{Caller, caller_at, tell_to, with_target}
use owop_server_for_heroku_g.Commands.Speech
use owop_server_for_heroku_g.Commands.Rights
use owop_server_for_heroku_g.Commands.Moves
use owop_server_for_heroku_g.Commands.Addresses
use owop_server_for_heroku_g.Commands.Settings

module _ {F : Type 0} (c : Caller F) where
  unfoldable pub help : List Bytes → Server F → Server F
  help args srv = tell_to c.ws (codes "Server: " ++ (get_cmd_list c.cl.rank ++ codes ".")) srv

  -- `run` is `exec`, for the socket of the target.
  unfoldable pub doas : (ℕ → Bytes → Server F → Server F) → List Bytes → Server F → Server F
  doas run (cmd ∷ id ∷ m ∷ msg) srv =
      with_target c id srv srv (λ n t. run t.ws (join_args (m ∷ msg)) srv)
  doas run args srv =
      tell_to c.ws (codes "Usage: /doas ID COMMAND")
        (tell_to c.ws (codes "Execute commands as another user. (without the initial '/')") srv)

module _ {F : Type 0} ⦃fl : Float F⦄ (os : Os) (junk : Bytes) where
  -- search->second(cl, args)
  unfoldable pub call :
      (ℕ → Bytes → Server F → Server F) → Command → Caller F → List Bytes → Server F → Server F
  call run Command.nick c args srv = Rights.nick c args srv
  call run Command.pass c args srv = Rights.pass c args srv
  call run Command.tell c args srv = Speech.tell c args srv
  call run Command.help c args srv = help c args srv
  call run Command.modlogin c args srv = Rights.modlogin c args srv
  call run Command.adminlogin c args srv = Rights.adminlogin c args srv
  call run Command.spawn c args srv = Moves.spawn c args srv
  call run Command.teleport c args srv = Moves.teleport c args srv
  call run Command.stealth c args srv = Rights.stealth c args srv
  call run Command.sayraw c args srv = Speech.sayraw c args srv
  call run Command.getid c args srv = Speech.getid c args srv
  call run Command.kick c args srv = Moves.kick c args srv
  call run Command.ids c args srv = Addresses.ids c args srv
  call run Command.kickip c args srv = Moves.kickip c args srv
  call run Command.banip c args srv = Moves.banip c args srv
  call run Command.bans c args srv = Addresses.bans c args srv
  call run Command.whitelist c args srv = Addresses.whitelist c args srv
  call run Command.blacklist c args srv = Addresses.blacklist c args srv
  call run Command.setrank c args srv = Rights.setrank c args srv
  call run Command.whois c args srv = Addresses.whois c args srv
  call run Command.save c args srv = Settings.save os junk args srv
  call run Command.kickall c args srv = Moves.kickall c args srv
  call run Command.setprop c args srv = Settings.setprop c args srv
  call run Command.getprop c args srv = Settings.getprop c args srv
  call run Command.mute c args srv = Rights.mute c args srv
  call run Command.restrict c args srv = Rights.restrict c args srv
  call run Command.lock c args srv = Settings.lock c args srv
  call run Command.reload c args srv = Settings.reload c args srv
  call run Command.lockdown c args srv = Settings.lockdown c args srv
  call run Command.bansuspicious c args srv = Settings.bansuspicious c args srv
  call run Command.worlds c args srv = Addresses.worlds c args srv
  call run Command.setpbucket c args srv = Rights.setpbucket c args srv
  call run Command.doas c args srv = doas c run args srv
  call run Command.broadcast c args srv = Speech.broadcast c args srv
  call run Command.totalonline c args srv = Speech.totalonline c args srv
  call run Command.tellraw c args srv = Speech.tellraw c args srv
  call run Command.dev c args srv = Speech.dev args srv

  -- The body of `exec`, with what it calls itself through `doas`: whether there was a command, and what
  -- it did. The lines that it writes to the standard output are left out.
  unfoldable pub exec_args :
      (ℕ → Bytes → Server F → Server F) → ℕ → List Bytes → Server F → Bool × Server F
  exec_args run ws [] srv = (false, srv)
  exec_args run ws (name ∷ args) srv = elim (caller_at ws srv) [
    | none ↦ (false, srv)
    | some c ↦ elim (find_command c.cl.rank name) [
      | none ↦ (false, srv)
      | some cmd ↦ (true, call run cmd c (name ∷ args) srv)
    ]
  ]

  unfoldable pub exec_loop : ℕ → ℕ → Bytes → Server F → Bool × Server F
  exec_loop zero ws msg srv = (false, srv)
  exec_loop (suc fuel) ws msg srv =
      exec_args (λ t line s. (exec_loop fuel t line s).1) ws (split_args msg) srv

  -- `doas` passes on fewer arguments than it has.
  unfoldable pub exec : ℕ → Bytes → Server F → Bool × Server F
  exec ws msg srv = exec_loop (length (split_args msg)) ws msg srv
