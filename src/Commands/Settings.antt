-- ===== src/Commands/Settings.antt =====
-- The commands of commands.cpp for the settings of a world and of the server.
use owop_server_for_heroku_g.Base.{
  ℕ, Bool, none, some, List, [], ◌∷◌, ◌++◌, leb, ◌==◌, if◌then◌else◌,
}
use owop_server_for_heroku_g.Base.Words.{Bytes, codes, to_string}
use owop_server_for_heroku_g.Base.Eq.{eq_bytes}
use owop_server_for_heroku_g.Args.{join_args}
use owop_server_for_heroku_g.Args.Numbers.{read_u32}
use owop_server_for_heroku_g.Database.Handles.{Os}
use owop_server_for_heroku_g.World.Props
use owop_server_for_heroku_g.Server
use owop_server_for_heroku_g.Server.{Server, send, put_world, set_captcha_protection}
use owop_server_for_heroku_g.Server.Files.{save_now}
use owop_server_for_heroku_g.Server.Modes.{set_max_ip_conns, set_instaban, set_proxycheck}
use owop_server_for_heroku_g.Commands.Caller.{Caller, tell_to}
use owop_server_for_heroku_g.Commands.Rights.{is_true}

abbrev enabled : Bytes → Bool → Bytes
enabled what state = what ++ (if state then codes "enabled." else codes "disabled.")

-- `ipcnt32 >= 255 ? 255 : ipcnt32 <= 1 ? 1 : ipcnt32`
unfoldable pub ip_count : ℕ → ℕ
ip_count n = if leb 255 n then 255 else if leb n 1 then 1 else n

unfoldable pub fast_action : Bytes → ℕ
fast_action arg =
    if eq_bytes arg (codes "captcha")
    then 3
    else if eq_bytes arg (codes "ban")
    then 2
    else if eq_bytes arg (codes "kick")
    then 1
    else 0

unfoldable pub fast_words : ℕ → Bytes
fast_words n =
    if n == 0
    then codes "allowing"
    else if n == 1
    then codes "kicking"
    else if n == 2
    then codes "banning"
    else codes "asking for captcha on"

module _ {F : Type 0} (c : Caller F) where
  unfoldable pub getprop : List Bytes → Server F → Server F
  getprop (cmd ∷ key ∷ []) srv =
      let v = Props.get_prop c.w key (codes "[Empty]") in
      tell_to c.ws (codes "World property: '" ++ (key ++ (codes "' is '" ++ (v ++ codes "'")))) srv
  getprop args srv = srv

  unfoldable pub setprop : List Bytes → Server F → Server F
  setprop (cmd ∷ key ∷ []) srv =
      tell_to c.ws (codes "DEVDeleted world's property key '" ++ (key ++ codes "'"))
        (put_world (Props.set_prop c.w key []) srv)
  setprop (cmd ∷ key ∷ v ∷ vs) srv =
      let value = join_args (v ∷ vs) in
      tell_to c.ws
        (codes "DEVSet world's property key '" ++ (key ++ (codes "' to '" ++ (value ++ codes "'"))))
        (put_world (Props.set_prop c.w key value) srv)
  setprop args srv = tell_to c.ws (codes "Usage: /setprop KEY [VALUE]") srv

  unfoldable pub reload : List Bytes → Server F → Server F
  reload args srv =
      let (w, sent) = Props.reload c.w in
      tell_to c.ws (codes "World properties reloaded.") (send sent (put_world w srv))

  unfoldable pub lock : List Bytes → Server F → Server F
  lock (cmd ∷ what ∷ arg ∷ []) srv =
      let state = eq_bytes arg (codes "true") in
      if eq_bytes what (codes "ip")
      then elim (read_u32 arg) [
        | none ↦ srv
        | some n ↦
            tell_to c.ws (codes "Set max connections per ip: " ++ to_string (ip_count n))
              (set_max_ip_conns (ip_count n) srv)
      ]
      else if eq_bytes what (codes "captcha")
      then tell_to c.ws (enabled (codes "Captcha protection ") state)
          (set_captcha_protection state srv)
      else if eq_bytes what (codes "proxy")
      then tell_to c.ws (enabled (codes "Proxy protection ") state) (set_proxycheck state srv)
      else if eq_bytes what (codes "trustwhitelist")
      then tell_to c.ws (enabled (codes "Trusting whitelist ") state)
          (record srv { trusting_captcha = state })
      else if eq_bytes what (codes "fastconnects")
      then tell_to c.ws
          (codes "Now " ++ (fast_words (fast_action arg) ++ codes " fast connections."))
          (record srv { fastconnectaction = fast_action arg })
      else srv
  lock args srv =
      tell_to c.ws
        (codes
          "Usage: /lock (ip/captcha/trustwhitelist/fastconnects) [num_conns/(true,false)/<-/(captcha, ban, kick, none)]")
        srv

  unfoldable pub lockdown : List Bytes → Server F → Server F
  lockdown (cmd ∷ arg ∷ []) srv = Server.set_lockdown (is_true arg) srv
  lockdown args srv = tell_to c.ws (codes "Usage: /lockdown true/false") (
      tell_to c.ws (codes "If all whitelisted admins disconnect, this is automatically disabled.") (
        tell_to c.ws
          (codes
            "Admin IPs are automatically added to the whitelist (careful, don't change your ip while this is on).")
          (tell_to c.ws (codes "Only allows players with whitelisted IPs to connect.") srv)))

  unfoldable pub bansuspicious : List Bytes → Server F → Server F
  bansuspicious (cmd ∷ arg ∷ []) srv =
      tell_to c.ws (enabled (codes "Suspicious banning mode ") (is_true arg))
        (set_instaban (is_true arg) srv)
  bansuspicious args srv = tell_to c.ws (codes "Usage: /bansuspicious (true, false)") (
      tell_to c.ws
        (codes "Instantly bans any connection with a non correct origin. Could be dangerous?") srv)

module _ {F : Type 0} where
  unfoldable pub save : Os → Bytes → List Bytes → Server F → Server F
  save os junk args srv = save_now os junk srv
