-- ===== src/Server/Connect.antt =====
-- The handler of connections in server.cpp.
use owop_server_for_heroku_g.Base.{
  ℕ, ◌+◌, ◌%◌, Bool, not, ◌&&◌, ◌||◌, none, some, [], ◌∷◌, ◌++◌, ltb, ◌==◌, if◌then◌else◌, take,
  drop,
}
use owop_server_for_heroku_g.Base.Words.{Bytes, codes, to_string}
use owop_server_for_heroku_g.Base.Eq.{nat_eq, bytes_eq, eq_bytes}
use owop_server_for_heroku_g.Base.Assoc.{lookup, assign, insert, emplace, contains}
use owop_server_for_heroku_g.Limiter.{Float, can_spend}
use owop_server_for_heroku_g.Net.{text, binary}
use owop_server_for_heroku_g.Net.Tag
use owop_server_for_heroku_g.Server.{Server, SocketInfo, send, admintell}
use owop_server_for_heroku_g.Server.Close.{close}

abbrev pub ca_waiting : ℕ
ca_waiting = 0

abbrev pub ca_ok : ℕ
ca_ok = 3

-- An IPv4 address is taken out of its IPv6 form.
unfoldable pub plain_ip : Bytes → Bytes
plain_ip address = if eq_bytes (take 7 address) (codes "::ffff:") then drop 7 address else address

module _ {F : Type 0} where
  unfoldable pub ban : Bytes → Server F → Server F
  ban ip srv =
      admintell (codes "DEVBanned IP: " ++ ip) (record srv { ipban = emplace ip srv.ipban })

  -- What a new connection is refused with: an address that is banned, or not on the list in a lockdown.
  unfoldable pub refuse : ℕ → Bool → Server F → Server F
  refuse ws banned srv = close ws (
      send
        (text ws (
            if banned
            then codes
                "You are banned. Appeal on the OWOP discord server, (https://discord.gg/JQkTSTd)"
            else codes "Sorry, the server is not accepting new connections right now (lockdown).")
          ∷ [])
        srv)

  -- The state of the captcha that the client is told at the end.
  unfoldable pub request_captcha : ℕ → Server F → Server F
  request_captcha ws srv = elim (lookup ws srv.socks) [
    | none ↦ srv
    | some si ↦ send (binary ws (Tag.captcha_required ∷ si.captcha_verified ∷ []) ∷ []) srv
  ]

  -- The switch over `fastconnectaction`; the case 2 goes on into the case 1. Where the socket is closed
  -- the source still reads the freed user data for a message that is not sent any more.
  unfoldable pub act_fast : ℕ → SocketInfo F → Server F → Server F
  act_fast ws si srv =
      if srv.fastconnectaction == 3
      then record srv { socks = assign ws (record si { captcha_verified = ca_waiting }) srv.socks }
      else if srv.fastconnectaction == 2
      then close ws (ban si.ip srv)
      else if srv.fastconnectaction == 1
      then close ws srv
      else srv

module _ {F : Type 0} ⦃fl : Float F⦄ where
  unfoldable pub limit_rate : ℕ → SocketInfo F → ℕ → Server F → Server F
  limit_rate ws si now srv =
      let (b, granted) = can_spend srv.connlimiter now 1 in
      let srv' = record srv { connlimiter = b } in
      request_captcha ws (if granted then srv' else act_fast ws si srv')

  -- The count of the address goes up, as a `uint8_t`, before it is compared.
  unfoldable pub count_conn : ℕ → SocketInfo F → Bool → ℕ → Server F → Server F
  count_conn ws si blacklisted now srv = elim (lookup si.ip srv.conns) [
    | none ↦ limit_rate ws si now (record srv { conns = insert si.ip 1 srv.conns })
    | some n ↦
        let more = (n + 1) % 256 in
        let srv' = record srv { conns = assign si.ip more srv.conns } in
        if ltb srv.maxconns more || blacklisted
        then close ws (
            send
              (text ws (
                  codes
                    "Sorry, but you have reached the maximum number of simultaneous connections, ("
                  ++ (to_string (if blacklisted then 1 else srv.maxconns) ++ codes ")."))
                ∷ [])
              srv')
        else limit_rate ws si now srv'
  ]

  unfoldable pub on_connection : ℕ → Bytes → ℕ → Server F → Server F
  on_connection ws address now srv =
      let ip = plain_ip address in
      let whitelisted = contains ip srv.ipwhitelist in
      let banned = contains ip srv.ipban in
      let blacklisted = contains ip srv.ipblacklist in
      let si : SocketInfo F = record {
        origin = [];
        ip = ip;
        player = none;
        captcha_verified =
            if srv.captcha_required && not (whitelisted && srv.trusting_captcha)
            then ca_waiting
            else ca_ok;
      } in
      let here = record srv { socks = insert ws si srv.socks } in
      if (srv.lockdown && not whitelisted) || banned
      then refuse ws banned here
      else if srv.instaban && eq_bytes si.origin (codes "(None)")
      then close ws (ban ip here)
      else count_conn ws si blacklisted now here
