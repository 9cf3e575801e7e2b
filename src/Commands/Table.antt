-- ===== src/Commands/Table.antt =====
-- The tables of the constructor of `Commands`, and the search through them for a client's rank.
use owop_server_for_heroku_g.Base.{
  ℕ, ◌-◌, ◌||◌, Option, none, some, List, [], ◌∷◌, ◌++◌, ltb, ◌==◌, if◌then◌else◌, length, take,
}
use owop_server_for_heroku_g.Base.Words.{Bytes, codes}
use owop_server_for_heroku_g.Base.Eq.{bytes_eq, eq_bytes}
use owop_server_for_heroku_g.Base.Assoc.{lookup}
use owop_server_for_heroku_g.Client.Rank

-- The functions that the tables bind.
pub data Command : Type 0 where
  nick : Command
  pass : Command
  tell : Command
  help : Command
  modlogin : Command
  adminlogin : Command
  spawn : Command
  teleport : Command
  stealth : Command
  sayraw : Command
  getid : Command
  kick : Command
  ids : Command
  kickip : Command
  banip : Command
  bans : Command
  whitelist : Command
  blacklist : Command
  setrank : Command
  whois : Command
  save : Command
  kickall : Command
  setprop : Command
  getprop : Command
  mute : Command
  restrict : Command
  lock : Command
  reload : Command
  lockdown : Command
  bansuspicious : Command
  worlds : Command
  setpbucket : Command
  doas : Command
  broadcast : Command
  totalonline : Command
  tellraw : Command
  dev : Command

abbrev pub usrcmds : List (Bytes × Command)
usrcmds =
    (codes "nick", Command.nick)
    ∷ (codes "pass", Command.pass)
    ∷ (codes "tell", Command.tell)
    ∷ (codes "help", Command.help)
    ∷ (codes "modlogin", Command.modlogin)
    ∷ (codes "adminlogin", Command.adminlogin)
    ∷ (codes "spawn", Command.spawn)
    ∷ []

abbrev pub modcmds : List (Bytes × Command)
modcmds =
    (codes "tp", Command.teleport)
    ∷ (codes "stealth", Command.stealth)
    ∷ (codes "sayraw", Command.sayraw)
    ∷ (codes "getid", Command.getid)
    ∷ (codes "kick", Command.kick)
    ∷ (codes "ids", Command.ids)
    ∷ []

abbrev pub admincmds : List (Bytes × Command)
admincmds =
    (codes "kickip", Command.kickip)
    ∷ (codes "banip", Command.banip)
    ∷ (codes "bans", Command.bans)
    ∷ (codes "whitelist", Command.whitelist)
    ∷ (codes "blacklist", Command.blacklist)
    ∷ (codes "setrank", Command.setrank)
    ∷ (codes "whois", Command.whois)
    ∷ (codes "save", Command.save)
    ∷ (codes "kickall", Command.kickall)
    ∷ (codes "setprop", Command.setprop)
    ∷ (codes "getprop", Command.getprop)
    ∷ (codes "stealth", Command.stealth)
    ∷ (codes "mute", Command.mute)
    ∷ (codes "restrict", Command.restrict)
    ∷ (codes "lock", Command.lock)
    ∷ (codes "reload", Command.reload)
    ∷ (codes "lockdown", Command.lockdown)
    ∷ (codes "bansuspicious", Command.bansuspicious)
    ∷ (codes "worlds", Command.worlds)
    ∷ (codes "setpbucket", Command.setpbucket)
    ∷ (codes "doas", Command.doas)
    ∷ (codes "broadcast", Command.broadcast)
    ∷ (codes "totalonline", Command.totalonline)
    ∷ (codes "tellraw", Command.tellraw)
    ∷ (codes "dev", Command.dev)
    ∷ []

-- The `for` loops of `get_cmd_list`.
abbrev pub names : List (Bytes × Command) → Bytes
names [] = []
names ((name, cmd) ∷ m) = name ++ (codes ", " ++ names m)

abbrev pub user_names : List (Bytes × Command) → Bytes
user_names [] = []
user_names ((name, cmd) ∷ m) =
    let rest = user_names m in
    if eq_bytes name (codes "modlogin") || eq_bytes name (codes "adminlogin")
    then rest
    else name ++ (codes ", " ++ rest)

-- Each case goes on into the next one.
unfoldable pub rank_names : ℕ → Bytes
rank_names rank =
    let users = user_names usrcmds in
    let mods = names modcmds ++ users in
    if rank == Rank.admin
    then names admincmds ++ mods
    else if rank == Rank.moderator
    then mods
    else if rank == Rank.user
    then users
    else []

unfoldable pub get_cmd_list : ℕ → Bytes
get_cmd_list rank = let m = rank_names rank in if ltb 2 (length m) then take (length m - 2) m else m

-- The cases of the switch in `exec`, from the last one up: each is what the one before it goes on into.
unfoldable pub find_default : Bytes → Option Command
find_default name =
    if eq_bytes name (codes "modlogin")
      || (eq_bytes name (codes "adminlogin") || eq_bytes name (codes "pass"))
    then lookup name usrcmds
    else none

unfoldable pub find_user : Bytes → Option Command
find_user name = elim (lookup name usrcmds) [ none ↦ find_default name | some cmd ↦ some cmd ]

unfoldable pub find_moderator : Bytes → Option Command
find_moderator name = elim (lookup name modcmds) [ none ↦ find_user name | some cmd ↦ some cmd ]

unfoldable pub find_admin : Bytes → Option Command
find_admin name = elim (lookup name admincmds) [ none ↦ find_moderator name | some cmd ↦ some cmd ]

unfoldable pub find_command : ℕ → Bytes → Option Command
find_command rank name =
    if rank == Rank.admin
    then find_admin name
    else if rank == Rank.moderator
    then find_moderator name
    else if rank == Rank.user
    then find_user name
    else find_default name
