-- ===== src/Server/Modes.antt =====
-- The modes of the server that end connections when they are set, in server.cpp.
pub mod Limit
pub mod Loop
use owop_server_for_heroku_g.Base.{
  ℕ, zero, suc, Bool, true, false, none, some, List, [], ◌∷◌, ltb, if◌then◌else◌, length,
}
use owop_server_for_heroku_g.Base.Words.{Bytes, codes}
use owop_server_for_heroku_g.Base.Eq.{nat_eq, bytes_eq, eq_bytes}
use owop_server_for_heroku_g.Base.Assoc.{lookup}
use owop_server_for_heroku_g.Client.{is_admin}
use owop_server_for_heroku_g.Server.{Server, SocketInfo, admintell}
use owop_server_for_heroku_g.Server.Close.{close, kick}
use owop_server_for_heroku_g.Server.Kick.{kickip}

module _ {F : Type 0} where
  -- One pass of the `for` loop over connsws, with `remaining`: `break` ends it, `continue` does not.
  unfoldable pub limit_pass : ℕ → List (ℕ × SocketInfo F) → Bool → Server F → Server F × Bool
  limit_pass max [] remaining srv = (srv, remaining)
  limit_pass max ((ws, si) ∷ m) remaining srv =
      let next = limit_pass max m remaining srv in
      let skipped = limit_pass max m false srv in
      elim (lookup si.ip srv.conns) [
        | none ↦ next
        | some n ↦
            if ltb max n
            then elim si.player [
              | none ↦ (close ws srv, true)
              | some cl ↦ if is_admin cl then skipped else (kick ws srv, true)
            ]
            else next
      ]

  -- The `while` loop.
  unfoldable pub limit_loop : ℕ → ℕ → Server F → Server F
  limit_loop zero max srv = srv
  limit_loop (suc fuel) max srv =
      let (srv', remaining) = limit_pass max srv.socks false srv in
      let rest = limit_loop fuel max srv' in if remaining then rest else srv'

  -- Each pass but the last ends a connection.
  unfoldable pub set_max_ip_conns : ℕ → Server F → Server F
  set_max_ip_conns max srv = limit_loop (suc (length srv.socks)) max (record srv { maxconns = max })

  unfoldable pub bot_pass : List (ℕ × SocketInfo F) → Server F → Server F × Bool
  bot_pass [] srv = (srv, false)
  bot_pass ((ws, si) ∷ m) srv =
      let next = bot_pass m srv in
      if eq_bytes si.origin (codes "(None)") then (close ws srv, true) else next

  unfoldable pub bot_loop : ℕ → Server F → Server F
  bot_loop zero srv = srv
  bot_loop (suc fuel) srv =
      let (srv', remaining) = bot_pass srv.socks srv in
      let rest = bot_loop fuel srv' in if remaining then rest else srv'

  unfoldable pub set_instaban : Bool → Server F → Server F
  set_instaban true srv =
      admintell (codes "DEVSuspicious banning enabled.")
        (bot_loop (suc (length srv.socks)) (record srv { instaban = true }))
  set_instaban false srv =
      admintell (codes "DEVSuspicious banning disabled.") (record srv { instaban = false })

  unfoldable pub kick_ips : List Bytes → Server F → Server F
  kick_ips [] srv = srv
  kick_ips (ip ∷ ips) srv = kick_ips ips (kickip ip srv)

  -- The requests that are cancelled are none: nothing in the code makes one.
  unfoldable pub set_proxycheck : Bool → Server F → Server F
  set_proxycheck true srv =
      admintell (codes "DEVProxy check enabled.") (record srv { proxy_lock = true })
  set_proxycheck false srv =
      let kicked = kick_ips srv.proxyquery_checking (record srv { proxy_lock = false }) in
      admintell (codes "DEVProxy check disabled.") (record kicked { proxyquery_checking = [] })
