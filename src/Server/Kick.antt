-- ===== src/Server/Kick.antt =====
-- Ending many connections at once, in server.cpp. The loops take the next socket before they close one.
use owop_server_for_heroku_g.Base.{
  ℕ, Bool, true, false, not, ◌&&◌, none, some, List, [], ◌∷◌, ◌++◌, if◌then◌else◌,
}
use owop_server_for_heroku_g.Base.Words.{Bytes, codes}
use owop_server_for_heroku_g.Base.Eq.{nat_eq, bytes_eq, eq_bytes}
use owop_server_for_heroku_g.Base.Assoc.{lookup, erase, contains}
use owop_server_for_heroku_g.Client.{is_admin}
use owop_server_for_heroku_g.Server.{Server, SocketInfo, admintell}
use owop_server_for_heroku_g.Server.Close.{close, kick}
use owop_server_for_heroku_g.Server.Connect.{ban}

module _ {F : Type 0} where
  -- The loop over connsws: `act` on each socket that is still there.
  unfoldable pub each :
      (ℕ → SocketInfo F → Server F → Server F) → List (ℕ × SocketInfo F) → Server F → Server F
  each act [] srv = srv
  each act ((ws, seen) ∷ m) srv =
      each act m (elim (lookup ws srv.socks) [ none ↦ srv | some si ↦ act ws si srv ])

  unfoldable pub kick_of_world : Bytes → ℕ → SocketInfo F → Server F → Server F
  kick_of_world name ws si srv = elim si.player [
    | none ↦ srv
    | some cl ↦ if eq_bytes cl.wrld name && not (is_admin cl) then kick ws srv else srv
  ]

  -- `Server::kickall(World *)`
  unfoldable pub kickall_of : Bytes → Server F → Server F
  kickall_of name srv = each (kick_of_world name) srv.socks srv

  unfoldable pub kick_common : ℕ → SocketInfo F → Server F → Server F
  kick_common ws si srv = elim si.player [
    | none ↦ close ws srv
    | some cl ↦ if is_admin cl then srv else kick ws srv
  ]

  -- `Server::kickall()`
  unfoldable pub kickall : Server F → Server F
  kickall srv = each kick_common srv.socks srv

  unfoldable pub close_of : Bytes → ℕ → SocketInfo F → Server F → Server F
  close_of ip ws si srv = if eq_bytes si.ip ip then close ws srv else srv

  unfoldable pub is_used : Bytes → List (ℕ × SocketInfo F) → Bool
  is_used ip [] = false
  is_used ip ((ws, si) ∷ m) = let rest = is_used ip m in if eq_bytes si.ip ip then true else rest

  unfoldable pub kickip : Bytes → Server F → Server F
  kickip ip srv =
      let closed = each (close_of ip) srv.socks srv in
      if is_used ip srv.socks
      then (let told = admintell (codes "DEVKicked IP: " ++ ip) closed in
          record told { conns = erase ip told.conns })
      else closed

  unfoldable pub banip : Bytes → Server F → Server F
  banip ip srv =
      if contains ip srv.ipban
      then srv
      else (let banned = ban ip srv in
          elim (lookup ip banned.conns) [ none ↦ banned | some n ↦ kickip ip banned ])
