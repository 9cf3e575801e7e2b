-- ===== src/Server.antt =====
-- The `Server` class of server.cpp: its sockets, worlds and lists of addresses, and what it does to all
-- of them. What is handed to the sockets is kept in the order in which it is.
pub mod Close
pub mod Connect
pub mod Join
pub mod Message
pub mod Kick
pub mod Bans
pub mod Find
pub mod Modes
pub mod Kept
pub mod Everyone
pub mod Apart
pub mod Passwords
pub mod Events
pub mod Stop
pub mod Files
pub mod Gone
pub mod Gates
pub mod Names
mod Tests
use owop_server_for_heroku_g.Base.{
  ℕ, ◌+◌, ◌%◌, Bool, true, false, not, ◌&&◌, ◌||◌, Option, none, some, List, [], ◌∷◌, ◌++◌, ltb,
  ◌==◌, if◌then◌else◌,
}
use owop_server_for_heroku_g.Base.Words.{Bytes, codes}
use owop_server_for_heroku_g.Base.Eq.{nat_eq, bytes_eq}
use owop_server_for_heroku_g.Base.Assoc.{lookup, assign, insert, emplace, contains}
use owop_server_for_heroku_g.Limiter.{Bucket}
use owop_server_for_heroku_g.Database.Storage.{Disk}
use owop_server_for_heroku_g.Net.{Out, text, to_all}
use owop_server_for_heroku_g.World.{World}
use owop_server_for_heroku_g.Client.{Client, is_admin}

-- `captcha_verified` is one of the constants CA_WAITING and CA_OK.
pub record SocketInfo (F : Type 0) : Type 0 where
  pub origin : Bytes
  pub ip : Bytes
  pub player : Option (Client F)
  pub captcha_verified : ℕ

-- `socks` is connsws with the user data of the sockets. `closing` are the worlds whose timers are being
-- closed: they are deleted at the end of the round of the event loop.
pub record Server (F : Type 0) : Type 0 where
  pub modpw : Bytes
  pub adminpw : Bytes
  pub devpw : Bytes
  pub path : Bytes
  pub worlds : List (Bytes × World)
  pub socks : List (ℕ × SocketInfo F)
  pub ipwhitelist : List Bytes
  pub ipblacklist : List Bytes
  pub ipban : List Bytes
  pub conns : List (Bytes × ℕ)
  pub connlimiter : Bucket F
  pub maxconns : ℕ
  pub captcha_required : Bool
  pub lockdown : Bool
  pub proxy_lock : Bool
  pub instaban : Bool
  pub trusting_captcha : Bool
  pub fastconnectaction : ℕ
  pub proxyquery_checking : List Bytes
  pub closing : List World
  pub disk : Disk
  pub sent : List Out

-- Whether an address of the list has a connection.
unfoldable pub any_connected : List Bytes → List (Bytes × ℕ) → Bool
any_connected [] conns = false
any_connected (ip ∷ ips) conns = elim (lookup ip conns) [
  | none ↦ any_connected ips conns
  | some n ↦ ltb 0 n || any_connected ips conns
]

module _ {F : Type 0} where
  abbrev pub send : List Out → Server F → Server F
  send outs srv = record srv { sent = srv.sent ++ outs }

  abbrev pub put_world : World → Server F → Server F
  put_world w srv = record srv { worlds = assign w.name w srv.worlds }

  -- The client of a socket after an operation on it.
  abbrev pub put_player : ℕ → SocketInfo F → Client F → Server F → Server F
  put_player ws si cl srv = record srv {
    socks = assign ws (record si { player = some cl }) srv.socks;
  }

  unfoldable pub is_admin_socket : SocketInfo F → Bool
  is_admin_socket si = elim si.player [ none ↦ false | some cl ↦ is_admin cl ]

  unfoldable pub tell_admins : Bytes → List (ℕ × SocketInfo F) → List Out
  tell_admins msg [] = []
  tell_admins msg ((ws, si) ∷ m) =
      let rest = tell_admins msg m in if is_admin_socket si then text ws msg ∷ rest else rest

  unfoldable pub admintell : Bytes → Server F → Server F
  admintell msg srv = send (tell_admins msg srv.socks) srv

  unfoldable pub broadcastmsg : Bytes → Server F → Server F
  broadcastmsg msg srv = send (to_all msg ∷ []) srv

  unfoldable pub whitelist_admins : List (ℕ × SocketInfo F) → List Bytes → List Bytes
  whitelist_admins [] ips = ips
  whitelist_admins ((ws, si) ∷ m) ips =
      whitelist_admins m (if is_admin_socket si then emplace si.ip ips else ips)

  unfoldable pub set_lockdown : Bool → Server F → Server F
  set_lockdown true srv =
      admintell (codes "DEVLockdown mode enabled.")
        (record srv { lockdown = true; ipwhitelist = whitelist_admins srv.socks srv.ipwhitelist })
  set_lockdown false srv =
      admintell (codes "DEVLockdown mode disabled.") (record srv { lockdown = false })

  unfoldable pub lockdown_check : Server F → Server F
  lockdown_check srv =
      if any_connected srv.ipwhitelist srv.conns then srv else set_lockdown false srv

  unfoldable pub get_conns : Bytes → Server F → ℕ
  get_conns ip srv = elim (lookup ip srv.conns) [ none ↦ 0 | some n ↦ n ]

  unfoldable pub whitelistip : Bytes → Server F → Server F
  whitelistip ip srv =
      if contains ip srv.ipwhitelist
      then srv
      else admintell (codes "DEVWhitelisted IP: " ++ ip)
          (record srv { ipwhitelist = emplace ip srv.ipwhitelist })

  unfoldable pub set_captcha_protection : Bool → Server F → Server F
  set_captcha_protection true srv =
      admintell (codes "DEVCaptcha protection enabled.") (record srv { captcha_required = true })
  set_captcha_protection false srv =
      admintell (codes "DEVCaptcha protection disabled.") (record srv { captcha_required = false })
