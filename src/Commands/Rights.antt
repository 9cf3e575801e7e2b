-- ===== src/Commands/Rights.antt =====
-- The commands of commands.cpp that change a client: its rank, its nick and what it may do.
use owop_server_for_heroku_g.Base.{
  ℕ, Bool, not, ◌&&◌, none, some, List, [], ◌∷◌, ◌++◌, ltb, leb, ◌==◌, if◌then◌else◌, length,
}
use owop_server_for_heroku_g.Base.Words.{Bytes, codes, to_string}
use owop_server_for_heroku_g.Base.Eq.{nat_eq, eq_bytes}
use owop_server_for_heroku_g.Base.Assoc.{remove}
use owop_server_for_heroku_g.Limiter.{Float}
use owop_server_for_heroku_g.Utf8.{get_utf8_strlen}
use owop_server_for_heroku_g.Args.{join_args}
use owop_server_for_heroku_g.Args.Numbers.{read_u32}
use owop_server_for_heroku_g.Net.{Out}
use owop_server_for_heroku_g.World.Props.{is_pass}
use owop_server_for_heroku_g.World.Clients.{set_default_rank}
use owop_server_for_heroku_g.Client.{
  Client, is_admin, is_mod, promote, enable_html_chat, set_nick, set_stealth, set_pbucket,
}
use owop_server_for_heroku_g.Client.Rank
use owop_server_for_heroku_g.Server.{Server, SocketInfo, send, put_player, put_world, admintell}
use owop_server_for_heroku_g.Server.Close.{kick}
use owop_server_for_heroku_g.Server.Find.{Found}
use owop_server_for_heroku_g.Commands.Caller.{Caller, tell_to, with_target}
use owop_server_for_heroku_g.Commands.Speech.{is_adminpw, is_modpw}

-- `arg == "true"`
abbrev pub is_true : Bytes → Bool
is_true arg = eq_bytes arg (codes "true")

unfoldable pub no_newlines : Bytes → Bytes
no_newlines name = remove 10 name

abbrev pub target_rank : Bytes
target_rank = codes "Error: Target's rank must be less than yours."

module _ {F : Type 0} where
  -- What an operation of a client did to it and sent.
  unfoldable pub did_player : ℕ → SocketInfo F → Client F × List Out → Server F → Server F
  did_player ws si did srv = send did.1 (put_player ws si did.0 srv)

module _ {F : Type 0} (c : Caller F) where
  unfoldable pub restrict : List Bytes → Server F → Server F
  restrict (cmd ∷ arg ∷ []) srv =
      let newstate = if is_true arg then Rank.none else Rank.user in
      tell_to c.ws
        (codes "Draw restriction is "
          ++ (if newstate == Rank.none then codes "ON" else codes "OFF"))
        (put_world (set_default_rank newstate c.w) srv)
  restrict args srv = tell_to c.ws (codes "Usage: /restrict (true/false)") (
      tell_to c.ws
        (codes
          "Restricts drawing to all NEW users in this world. (manually grant with /setrank (id) 1")
        srv)

  unfoldable pub stealth : List Bytes → Server F → Server F
  stealth (cmd ∷ arg ∷ []) srv =
      tell_to c.ws
        (codes "Stealth mode " ++ (if is_true arg then codes "enabled." else codes "disabled."))
        (put_player c.ws c.si (set_stealth (is_true arg) c.cl) srv)
  stealth args srv =
      tell_to c.ws (codes "Usage: /stealth (true, false)") (
        tell_to c.ws (codes "Removes the (A)/(M) from chat (you need to remove your nickname).")
          srv)

  unfoldable pub named : Bytes → Bytes → Server F → Server F
  named nick name srv =
      tell_to c.ws (codes "Nickname set to: '" ++ (name ++ codes "'"))
        (put_player c.ws c.si (set_nick nick c.cl) srv)

  unfoldable pub nick : List Bytes → Server F → Server F
  nick (cmd ∷ n ∷ args) srv =
      let name = no_newlines (join_args (n ∷ args)) in
      let size = get_utf8_strlen name in
      if ltb (length name) 1
      then srv
      else if is_admin c.cl
      then named name name srv
      else if is_mod c.cl && leb size 40
      then named name name srv
      else if ltb 0 size
      then named (codes "[" ++ (to_string c.cl.id ++ (codes "] " ++ name))) name srv
      else tell_to c.ws
          (codes "Nickname too long! (Max: "
            ++ (to_string (if is_mod c.cl then 40 else 12) ++ codes ")"))
          srv
  nick args srv =
      tell_to c.ws (codes "Nickname reset.") (put_player c.ws c.si (set_nick [] c.cl) srv)

  unfoldable pub mute_target : ℕ → Found F → Bool → Server F → Server F
  mute_target id t newstate srv =
      if leb c.cl.rank t.cl.rank
      then tell_to c.ws target_rank srv
      else tell_to c.ws ((if newstate then codes "Muted " else codes "Unmuted ") ++ to_string id)
          (put_player t.ws t.si (record t.cl { mute = newstate }) srv)

  unfoldable pub mute : List Bytes → Server F → Server F
  mute (cmd ∷ id ∷ arg ∷ []) srv =
      with_target c id srv srv (λ n t. mute_target n t (eq_bytes arg (codes "1")) srv)
  mute args srv = tell_to c.ws (codes "Usage: /mute (id) (1/0)") srv

module _ {F : Type 0} ⦃fl : Float F⦄ (c : Caller F) where
  unfoldable pub pass : List Bytes → Server F → Server F
  pass (cmd ∷ a ∷ args) srv =
      if is_pass c.w (join_args (a ∷ args))
      then did_player c.ws c.si (promote c.cl c.w.default_rank c.w.paintrate) srv
      else kick c.ws srv
  pass args srv =
      tell_to c.ws (codes "Usage: /pass WORLDPASSWORD")
        (tell_to c.ws (codes "Use to unlock drawing on a protected world.") srv)

  unfoldable pub modlogin : List Bytes → Server F → Server F
  modlogin (cmd ∷ pw ∷ []) srv =
      if not (is_mod c.cl) && is_modpw pw srv
      then did_player c.ws c.si (promote c.cl Rank.moderator c.w.paintrate) (
          admintell
            (codes "DEV"
              ++ (to_string c.cl.id
                  ++ (codes " (" ++ (c.w.name ++ (codes ", " ++ (c.si.ip ++ codes ") Got mod"))))))
            srv)
      else srv
  modlogin args srv = srv

  unfoldable pub adminlogin : List Bytes → Server F → Server F
  adminlogin (cmd ∷ pw ∷ []) srv =
      let (cl, sent) = promote c.cl Rank.admin c.w.paintrate in
      if is_adminpw pw srv
      then did_player c.ws c.si (enable_html_chat cl, sent) srv
      else tell_to c.ws (codes "FAIL!!!") srv
  adminlogin args srv = srv

  unfoldable pub set_target_rank : ℕ → ℕ → Found F → Server F → Server F
  set_target_rank id rank t srv =
      if ltb t.cl.rank c.cl.rank && ltb rank c.cl.rank
      then tell_to c.ws
          (codes "Set user's (" ++ (to_string id ++ (codes ") rank to: " ++ to_string rank)))
          (did_player t.ws t.si (promote t.cl rank c.w.paintrate) srv)
      else if leb c.cl.rank t.cl.rank
      then tell_to c.ws target_rank srv
      else tell_to c.ws
          (codes "Error: Rank set must be less than your current rank. ("
            ++ (to_string rank ++ (codes " >= " ++ (to_string c.cl.rank ++ codes ")"))))
          srv

  unfoldable pub setrank : List Bytes → Server F → Server F
  setrank (cmd ∷ id ∷ arg ∷ []) srv = elim (read_u32 arg) [
    | none ↦ srv
    | some rank ↦
        with_target c id srv (tell_to c.ws (codes "Error: User does not exist") srv)
          (λ n t. set_target_rank n rank t srv)
  ]
  setrank args srv =
      tell_to c.ws (codes "Usage: /setrank (id) (rank [0: NONE, 1: USER, 2: MODERATOR, 3: ADMIN])")
        srv

  unfoldable pub set_target_bucket : Found F → ℕ → ℕ → Server F → Server F
  set_target_bucket t rate per srv =
      tell_to c.ws
        (codes "Set client's place bucket: ("
          ++ (to_string rate ++ (codes ", " ++ (to_string per ++ codes ")"))))
        (did_player t.ws t.si (set_pbucket t.cl rate per) srv)

  unfoldable pub setpbucket : List Bytes → Server F → Server F
  setpbucket (cmd ∷ id ∷ r ∷ p ∷ []) srv = elim (read_u32 r) [
    | none ↦ srv
    | some rate ↦ elim (read_u32 p) [
      | none ↦ srv
      | some per ↦ with_target c id srv (tell_to c.ws (codes "Client not found!") srv) (λ n t.
          set_target_bucket t (if ltb 0xFFFF rate then 0xFFFF else rate)
            (if ltb 0xFFFF per then 0xFFFF else if per == 0 then 1 else per) srv)
    ]
  ]
  setpbucket args srv = tell_to c.ws (codes "Usage: /setpbucket ID RATE PER") (
      tell_to c.ws
        (codes "Set a client's drawing limit. (RATE pixels every PER seconds, no floats allowed)")
        srv)
