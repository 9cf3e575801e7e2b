-- ===== src/Commands/Kept/Exec.antt =====
-- Every command, and `exec`.
use owop_server_for_heroku_g.Base.{
  ℕ, zero, suc, refl, subst, sym, Bool, List, [], ◌∷◌, either, maybe, All, length,
}
use owop_server_for_heroku_g.Base.Words.{Bytes}
use owop_server_for_heroku_g.Limiter.{Float}
use owop_server_for_heroku_g.Args.{split_args, join_args}
use owop_server_for_heroku_g.Args.Words.{IsWord, split_args-IsWord, split_args-join_args}
use owop_server_for_heroku_g.Database.Handles.{Os}
use owop_server_for_heroku_g.Client.{Client}
use owop_server_for_heroku_g.Server.{Server, broadcastmsg}
use owop_server_for_heroku_g.Server.Kept.{Kept, admintell-Kept, save_now-Kept}
use owop_server_for_heroku_g.Server.Find.{get_cli_named}
use owop_server_for_heroku_g.Commands.Table.{Command, find_command}
use owop_server_for_heroku_g.Commands.Caller.{Caller, caller_at}
use owop_server_for_heroku_g.Commands.Speech.{is_adminpw}
use owop_server_for_heroku_g.Commands.Speech
use owop_server_for_heroku_g.Commands.Settings
use owop_server_for_heroku_g.Commands.Addresses
use owop_server_for_heroku_g.Commands.Addresses.{edit_list}
use owop_server_for_heroku_g.Commands.Exec.{call, help, doas, exec_args, exec_loop, exec}
use owop_server_for_heroku_g.Commands.Kept.{Known, tell_all-Kept, with_target-Kept, caller_at-Known}
use owop_server_for_heroku_g.Commands.Kept.Rights.{
  Opens, nick-Kept, stealth-Kept, restrict-Kept, mute-Kept, pass-Kept, setrank-Kept,
  setpbucket-Kept, modlogin-Kept, adminlogin-Kept,
}
use owop_server_for_heroku_g.Commands.Kept.Moves.{
  spawn-Kept, teleport-Kept, kick-Kept, setprop-Kept, reload-Kept, lock-Kept, lockdown-Kept,
  bansuspicious-Kept, kickip_cmd-Kept, banip_cmd-Kept, kickall_cmd-Kept,
}

module _ {F : Type 0} (P : Server F → Type 0) (A : Client F → Type 0) (D : ℕ → Type 0)
    (k : Kept P A D) where
  dev-Kept : (c : Caller F) (args : List Bytes) (srv : Server F) → P srv → P (Speech.dev args srv)
  unfolding Speech.dev
  dev-Kept c (cmd ∷ pw ∷ m ∷ msg) srv p =
      either P (is_adminpw pw srv) _ _ (admintell-Kept P A D k _ srv p) p
  dev-Kept c args srv p = p

  broadcast-Kept :
      (c : Caller F) (args : List Bytes) (srv : Server F) → P srv → P (Speech.broadcast c args srv)
  unfolding Speech.broadcast broadcastmsg
  broadcast-Kept c (cmd ∷ m ∷ msg) srv p = k.rest srv _ refl refl refl refl p
  broadcast-Kept c args srv p = k.rest srv _ refl refl refl refl p

  totalonline-Kept :
      (c : Caller F) (args : List Bytes) (srv : Server F)
      → P srv
      → P (Speech.totalonline c args srv)
  unfolding Speech.totalonline
  totalonline-Kept c args srv p = k.rest srv _ refl refl refl refl p

  tellraw-Kept :
      (c : Caller F) (args : List Bytes) (srv : Server F) → P srv → P (Speech.tellraw c args srv)
  unfolding Speech.tellraw
  tellraw-Kept c (cmd ∷ id ∷ m ∷ msg) srv p =
      with_target-Kept P A D k c id srv _ _ p (k.rest srv _ refl refl refl refl p)
        (λ n t a. k.rest srv _ refl refl refl refl p)
  tellraw-Kept c args srv p = k.rest srv _ refl refl refl refl p

  sayraw-Kept :
      (c : Caller F) (args : List Bytes) (srv : Server F) → P srv → P (Speech.sayraw c args srv)
  unfolding Speech.sayraw
  sayraw-Kept c (cmd ∷ m ∷ msg) srv p = k.rest srv _ refl refl refl refl p
  sayraw-Kept c args srv p = k.rest srv _ refl refl refl refl p

  tell-Kept :
      (c : Caller F) (args : List Bytes) (srv : Server F) → P srv → P (Speech.tell c args srv)
  unfolding Speech.tell
  tell-Kept c (cmd ∷ id ∷ m ∷ msg) srv p =
      with_target-Kept P A D k c id srv _ _ p (k.rest srv _ refl refl refl refl p)
        (λ n t a. k.rest srv _ refl refl refl refl p)
  tell-Kept c args srv p = k.rest srv _ refl refl refl refl p

  getid-Kept :
      (c : Caller F) (args : List Bytes) (srv : Server F) → P srv → P (Speech.getid c args srv)
  unfolding Speech.getid
  getid-Kept c (cmd ∷ n ∷ name) srv p =
      maybe P (get_cli_named (join_args (n ∷ name)) c.w srv) _ _
        (k.rest srv _ refl refl refl refl p) (λ t e. k.rest srv _ refl refl refl refl p)
  getid-Kept c args srv p = k.rest srv _ refl refl refl refl p

  bans-Kept :
      (c : Caller F) (args : List Bytes) (srv : Server F) → P srv → P (Addresses.bans c args srv)
  unfolding Addresses.bans
  bans-Kept c args srv p = tell_all-Kept P A D k c.ws _ _ (k.rest srv _ refl refl refl refl p)

  whitelist-Kept :
      (c : Caller F) (args : List Bytes) (srv : Server F)
      → P srv
      → P (Addresses.whitelist c args srv)
  unfolding Addresses.whitelist
  whitelist-Kept c args srv p = tell_all-Kept P A D k c.ws _ _ (k.rest srv _ refl refl refl refl p)

  blacklist-Kept :
      (c : Caller F) (args : List Bytes) (srv : Server F)
      → P srv
      → P (Addresses.blacklist c args srv)
  unfolding Addresses.blacklist
  blacklist-Kept c args srv p = tell_all-Kept P A D k c.ws _ _ (k.rest srv _ refl refl refl refl p)

  ids-Kept :
      (c : Caller F) (args : List Bytes) (srv : Server F) → P srv → P (Addresses.ids c args srv)
  unfolding Addresses.ids
  ids-Kept c args srv p = k.rest srv _ refl refl refl refl p

  worlds-Kept :
      (c : Caller F) (args : List Bytes) (srv : Server F) → P srv → P (Addresses.worlds c args srv)
  unfolding Addresses.worlds
  worlds-Kept c args srv p = tell_all-Kept P A D k c.ws _ srv p

  whois-Kept :
      (c : Caller F) (args : List Bytes) (srv : Server F) → P srv → P (Addresses.whois c args srv)
  unfolding Addresses.whois
  whois-Kept c (cmd ∷ id ∷ []) srv p =
      with_target-Kept P A D k c id srv srv _ p p (λ n t a. tell_all-Kept P A D k c.ws _ srv p)
  whois-Kept c args srv p = k.rest srv _ refl refl refl refl p

  getprop-Kept :
      (c : Caller F) (args : List Bytes) (srv : Server F) → P srv → P (Settings.getprop c args srv)
  unfolding Settings.getprop
  getprop-Kept c (cmd ∷ key ∷ []) srv p = k.rest srv _ refl refl refl refl p
  getprop-Kept c args srv p = p

module _ {F : Type 0} ⦃fl : Float F⦄ (P : Server F → Type 0) (A : Client F → Type 0)
    (D : ℕ → Type 0) (k : Kept P A D) (os : Os) (junk : Bytes) where
  abbrev AllOpen : List Bytes → Server F → Type 0
  AllOpen args srv = All (Opens D srv) args

  -- What `doas` runs keeps the property, for fewer words.
  abbrev Runs : (ℕ → Bytes → Server F → Server F) → Server F → Type 0
  Runs run srv = (ws : ℕ) (msg : Bytes) → AllOpen (split_args msg) srv → P srv → P (run ws msg srv)

  doas-Kept :
      (run : ℕ → Bytes → Server F → Server F) (c : Caller F) (args : List Bytes) (srv : Server F)
      → All IsWord args
      → Runs run srv
      → AllOpen args srv
      → P srv
      → P (doas c run args srv)
  unfolding doas
  doas-Kept run c (cmd ∷ id ∷ m ∷ msg) srv (hc, (hi, words)) h (oc, (oi, o)) p =
      let again = split_args-join_args (m ∷ msg) (λ e. cc) words in
      with_target-Kept P A D k c id srv srv _ p p
        (λ n t a. h t.ws (join_args (m ∷ msg)) (subst (λ args. AllOpen args srv) (sym again) o) p)
  doas-Kept run c args srv words h o p = k.rest srv _ refl refl refl refl p

  call-Kept :
      (run : ℕ → Bytes → Server F → Server F) (cmd : Command) (c : Caller F) (args : List Bytes)
      (srv : Server F)
      → Known P A D k c
      → All IsWord args
      → Runs run srv
      → AllOpen args srv
      → P srv
      → P (call os junk run cmd c args srv)
  unfolding call help Settings.save
  call-Kept run Command.nick c args srv v words h o p = nick-Kept P A D k c v args srv p
  call-Kept run Command.pass c args srv v words h o p = pass-Kept P A D k c v args srv p
  call-Kept run Command.tell c args srv v words h o p = tell-Kept P A D k c args srv p
  call-Kept run Command.help c args srv v words h o p = k.rest srv _ refl refl refl refl p
  call-Kept run Command.modlogin c args srv v words h o p = modlogin-Kept P A D k c v args srv o p
  call-Kept run Command.adminlogin c args srv v words h o p =
      adminlogin-Kept P A D k c v args srv o p
  call-Kept run Command.spawn c args srv v words h o p = spawn-Kept P A D k c v args srv p
  call-Kept run Command.teleport c args srv v words h o p = teleport-Kept P A D k c v args srv p
  call-Kept run Command.stealth c args srv v words h o p = stealth-Kept P A D k c v args srv p
  call-Kept run Command.sayraw c args srv v words h o p = sayraw-Kept P A D k c args srv p
  call-Kept run Command.getid c args srv v words h o p = getid-Kept P A D k c args srv p
  call-Kept run Command.kick c args srv v words h o p = kick-Kept P A D k c v args srv p
  call-Kept run Command.ids c args srv v words h o p = ids-Kept P A D k c args srv p
  call-Kept run Command.kickip c args srv v words h o p = kickip_cmd-Kept P A D k c v args srv p
  call-Kept run Command.banip c args srv v words h o p = banip_cmd-Kept P A D k c v args srv p
  call-Kept run Command.bans c args srv v words h o p = bans-Kept P A D k c args srv p
  call-Kept run Command.whitelist c args srv v words h o p = whitelist-Kept P A D k c args srv p
  call-Kept run Command.blacklist c args srv v words h o p = blacklist-Kept P A D k c args srv p
  call-Kept run Command.setrank c args srv v words h o p = setrank-Kept P A D k c v args srv p
  call-Kept run Command.whois c args srv v words h o p = whois-Kept P A D k c args srv p
  call-Kept run Command.save c args srv v words h o p = save_now-Kept P A D k os junk srv p
  call-Kept run Command.kickall c args srv v words h o p = kickall_cmd-Kept P A D k c v args srv p
  call-Kept run Command.setprop c args srv v words h o p = setprop-Kept P A D k c v args srv p
  call-Kept run Command.getprop c args srv v words h o p = getprop-Kept P A D k c args srv p
  call-Kept run Command.mute c args srv v words h o p = mute-Kept P A D k c v args srv p
  call-Kept run Command.restrict c args srv v words h o p = restrict-Kept P A D k c v args srv p
  call-Kept run Command.lock c args srv v words h o p = lock-Kept P A D k c v args srv p
  call-Kept run Command.reload c args srv v words h o p = reload-Kept P A D k c v args srv p
  call-Kept run Command.lockdown c args srv v words h o p = lockdown-Kept P A D k c v args srv p
  call-Kept run Command.bansuspicious c args srv v words h o p =
      bansuspicious-Kept P A D k c v args srv p
  call-Kept run Command.worlds c args srv v words h o p = worlds-Kept P A D k c args srv p
  call-Kept run Command.setpbucket c args srv v words h o p = setpbucket-Kept P A D k c v args srv p
  call-Kept run Command.doas c args srv v words h o p = doas-Kept run c args srv words h o p
  call-Kept run Command.broadcast c args srv v words h o p = broadcast-Kept P A D k c args srv p
  call-Kept run Command.totalonline c args srv v words h o p = totalonline-Kept P A D k c args srv p
  call-Kept run Command.tellraw c args srv v words h o p = tellraw-Kept P A D k c args srv p
  call-Kept run Command.dev c args srv v words h o p = dev-Kept P A D k c args srv p

  exec_args-Kept :
      (run : ℕ → Bytes → Server F → Server F) (ws : ℕ) (args : List Bytes) (srv : Server F)
      → All IsWord args
      → Runs run srv
      → AllOpen args srv
      → P srv
      → P (exec_args os junk run ws args srv).1
  unfolding exec_args
  exec_args-Kept run ws [] srv words h o p = p
  exec_args-Kept run ws (name ∷ args) srv words h o p =
      maybe (λ (did : Bool × Server F). P did.1) (caller_at ws srv) _ _ p
        (λ c there.
          maybe (λ (did : Bool × Server F). P did.1) (find_command c.cl.rank name) _ _ p
            (λ cmd found.
              call-Kept run cmd c (name ∷ args) srv (caller_at-Known P A D k ws srv c p there) words
                h o p))

  exec_loop-Kept :
      (fuel ws : ℕ) (msg : Bytes) (srv : Server F)
      → AllOpen (split_args msg) srv
      → P srv
      → P (exec_loop os junk fuel ws msg srv).1
  unfolding exec_loop
  exec_loop-Kept zero ws msg srv o p = p
  exec_loop-Kept (suc fuel) ws msg srv o p =
      exec_args-Kept (λ t line s. (exec_loop os junk fuel t line s).1) ws (split_args msg) srv
        (split_args-IsWord msg) (λ t line o' p'. exec_loop-Kept fuel t line srv o' p') o p

  -- Whatever is typed, if its words that are passwords give only ranks that the property allows.
  pub exec-Kept :
      (ws : ℕ) (msg : Bytes) (srv : Server F)
      → AllOpen (split_args msg) srv
      → P srv
      → P (exec os junk ws msg srv).1
  unfolding exec
  exec-Kept ws msg srv o p = exec_loop-Kept (length (split_args msg)) ws msg srv o p
