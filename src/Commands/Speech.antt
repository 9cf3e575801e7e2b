-- ===== src/Commands/Speech.antt =====
-- The commands of commands.cpp that only say something.
use owop_server_for_heroku_g.Base.{Bool, none, some, List, ◌∷◌, ◌++◌, if◌then◌else◌, length}
use owop_server_for_heroku_g.Base.Words.{Bytes, codes, to_string}
use owop_server_for_heroku_g.Base.Eq.{eq_bytes}
use owop_server_for_heroku_g.Args.{join_args}
use owop_server_for_heroku_g.World.Props
use owop_server_for_heroku_g.Server.{Server, send, admintell, broadcastmsg}
use owop_server_for_heroku_g.Server.Find.{get_cli_named}
use owop_server_for_heroku_g.Commands.Caller.{Caller, tell_to, with_target}

-- `sv->is_adminpw(pw)`, `sv->is_modpw(pw)`
module _ {F : Type 0} where
  unfoldable pub is_adminpw : Bytes → Server F → Bool
  is_adminpw pw srv = eq_bytes pw srv.adminpw

  unfoldable pub is_modpw : Bytes → Server F → Bool
  is_modpw pw srv = eq_bytes pw srv.modpw

  unfoldable pub dev : List Bytes → Server F → Server F
  dev (cmd ∷ pw ∷ m ∷ msg) srv =
      if is_adminpw pw srv then admintell (codes "DEV" ++ join_args (m ∷ msg)) srv else srv
  dev args srv = srv

module _ {F : Type 0} (c : Caller F) where
  unfoldable pub broadcast : List Bytes → Server F → Server F
  broadcast (cmd ∷ m ∷ msg) srv = broadcastmsg (codes " [Broadcast] " ++ join_args (m ∷ msg)) srv
  broadcast args srv = tell_to c.ws (codes "Broadcasts a message to all connections.") srv

  unfoldable pub totalonline : List Bytes → Server F → Server F
  totalonline args srv =
      tell_to c.ws (codes "Total connections to the server: " ++ to_string (length srv.socks)) srv

  unfoldable pub tellraw : List Bytes → Server F → Server F
  tellraw (cmd ∷ id ∷ m ∷ msg) srv =
      with_target c id srv (tell_to c.ws (codes "User not found!") srv)
        (λ n t. tell_to t.ws (join_args (m ∷ msg)) (tell_to c.ws (codes "Message sent.") srv))
  tellraw args srv =
      tell_to c.ws (codes "Usage: /tellraw (id) (message)")
        (tell_to c.ws (codes "Displays a message to a user as raw text.") srv)

  unfoldable pub sayraw : List Bytes → Server F → Server F
  sayraw (cmd ∷ m ∷ msg) srv = send (Props.broadcast (join_args (m ∷ msg)) c.w) srv
  sayraw args srv =
      tell_to c.ws (codes "Usage: /sayraw (message)")
        (tell_to c.ws (codes "Send a message as raw text.") srv)

  unfoldable pub tell : List Bytes → Server F → Server F
  tell (cmd ∷ id ∷ m ∷ msg) srv =
      let said = join_args (m ∷ msg) in
      with_target c id srv (tell_to c.ws (codes "User not found!") srv) (λ n t.
        tell_to t.ws (codes "-> " ++ (to_string c.cl.id ++ (codes " tells you: " ++ said)))
          (tell_to c.ws (codes "-> You tell " ++ (to_string t.cl.id ++ (codes ": " ++ said))) srv))
  tell args srv = tell_to c.ws (codes "Usage: /tell (id) (message)") srv

  unfoldable pub getid : List Bytes → Server F → Server F
  getid (cmd ∷ n ∷ name) srv = elim (get_cli_named (join_args (n ∷ name)) c.w srv) [
    | none ↦ tell_to c.ws (codes "User not found!") srv
    | some t ↦ tell_to c.ws (codes "ID: " ++ to_string t.cl.id) srv
  ]
  getid args srv = tell_to c.ws (codes "Usage: /getid NICKNAME") (
      tell_to c.ws
        (codes
          "Gets the id by nick. Probably useless because of HTML nicks or invisible characters. (might improve (lol jk, it will stay like this (probably (but not sure tho))))")
        srv)
