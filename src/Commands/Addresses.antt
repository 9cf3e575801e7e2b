-- ===== src/Commands/Addresses.antt =====
-- The commands of commands.cpp for the lists of addresses, and those that list clients and worlds.
use owop_server_for_heroku_g.Base.{ℕ, none, some, List, [], ◌∷◌, ◌++◌, if◌then◌else◌, length}
use owop_server_for_heroku_g.Base.Words.{Bytes, codes, to_string}
use owop_server_for_heroku_g.Base.Eq.{bytes_eq, eq_bytes}
use owop_server_for_heroku_g.Base.Assoc.{emplace, remove, contains}
use owop_server_for_heroku_g.World.{World}
use owop_server_for_heroku_g.Server.{Server, get_conns}
use owop_server_for_heroku_g.Server.Find.{Found, client_at}
use owop_server_for_heroku_g.Commands.Caller.{Caller, tell_to, with_target}

-- What one of the three commands says.
pub record Words : Type 0 where
  pub cleared : Bytes
  pub added : Bytes
  pub removed : Bytes
  pub usage : Bytes

abbrev ban_words : Words
ban_words = record {
  cleared = codes "Cleared all bans.";
  added = codes "Banned IP: ";
  removed = codes "Unbanned IP: ";
  usage = codes "Usage: /bans (list, clear, add, remove) [IP]";
}

abbrev white_words : Words
white_words = record {
  cleared = codes "Cleared all whitelists.";
  added = codes "Whitelisted IP: ";
  removed = codes "Unwhitelisted IP: ";
  usage = codes "Usage: /whitelist (list, clear, add, remove) [IP]";
}

abbrev black_words : Words
black_words = record {
  cleared = codes "Cleared all blacklists.";
  added = codes "Blacklisted IP: ";
  removed = codes "Unblacklisted IP: ";
  usage = codes "Usage: /blacklist (list, clear, add, remove) [IP]";
}

abbrev entries : List Bytes → List Bytes
entries [] = []
entries (ip ∷ ips) = (codes "-> " ++ ip) ∷ entries ips

-- The new list and what is told.
unfoldable pub edit_list : Words → List Bytes → List Bytes → List Bytes × List Bytes
edit_list words (cmd ∷ act ∷ []) ips =
    if eq_bytes act (codes "list")
    then (ips, entries ips ++ (codes "Total: " ++ to_string (length ips)) ∷ [])
    else if eq_bytes act (codes "clear")
    then ([], words.cleared ∷ [])
    else (ips, [])
edit_list words (cmd ∷ act ∷ ip ∷ []) ips =
    if eq_bytes act (codes "add")
    then (emplace ip ips, (words.added ++ ip) ∷ [])
    else if eq_bytes act (codes "remove")
    then (remove ip ips, if contains ip ips then (words.removed ++ ip) ∷ [] else [])
    else (ips, [])
edit_list words args ips = (ips, words.usage ∷ [])

unfoldable pub world_list : List (Bytes × World) → List Bytes
world_list [] = []
world_list ((name, w) ∷ m) =
    (codes "-> " ++ (name ++ (codes " [" ++ (to_string (length w.clients) ++ codes "]"))))
    ∷ world_list m

module _ {F : Type 0} where
  unfoldable pub about : ℕ → Found F → Server F → List Bytes
  about id t srv =
      (codes "Client information for: " ++ to_string id)
      ∷ (codes "-> Connections by this IP: " ++ to_string (get_conns t.si.ip srv))
      ∷ (codes "-> IP: " ++ t.si.ip)
      ∷ (codes "-> Origin header: " ++ t.si.origin)
      ∷ (codes "-> Retard level: " ++ to_string t.cl.penalty)
      ∷ (codes "-> Rank: " ++ to_string t.cl.rank)
      ∷ []

  unfoldable pub tell_all : ℕ → List Bytes → Server F → Server F
  tell_all ws [] srv = srv
  tell_all ws (msg ∷ msgs) srv = tell_all ws msgs (tell_to ws msg srv)

  -- `std::to_string(c->id) + ", "` for each client of the world.
  unfoldable pub id_list : List ℕ → Server F → Bytes
  id_list [] srv = []
  id_list (ws ∷ clients) srv =
      let rest = id_list clients srv in
      elim (client_at ws srv.socks) [
        | none ↦ rest
        | some t ↦ to_string t.cl.id ++ (codes ", " ++ rest)
      ]

module _ {F : Type 0} (c : Caller F) where
  unfoldable pub bans : List Bytes → Server F → Server F
  bans args srv =
      let (ips, told) = edit_list ban_words args srv.ipban in
      tell_all c.ws told (record srv { ipban = ips })

  unfoldable pub whitelist : List Bytes → Server F → Server F
  whitelist args srv =
      let (ips, told) = edit_list white_words args srv.ipwhitelist in
      tell_all c.ws told (record srv { ipwhitelist = ips })

  unfoldable pub blacklist : List Bytes → Server F → Server F
  blacklist args srv =
      let (ips, told) = edit_list black_words args srv.ipblacklist in
      tell_all c.ws told (record srv { ipblacklist = ips })

  unfoldable pub ids : List Bytes → Server F → Server F
  ids args srv =
      tell_to c.ws
        (codes "Total: "
          ++ (to_string (length c.w.clients) ++ (codes "; " ++ id_list c.w.clients srv)))
        srv

  unfoldable pub worlds : List Bytes → Server F → Server F
  worlds args srv = tell_all c.ws (codes "Currently loaded worlds:" ∷ world_list srv.worlds) srv

  unfoldable pub whois : List Bytes → Server F → Server F
  whois (cmd ∷ id ∷ []) srv = with_target c id srv srv (λ n t. tell_all c.ws (about n t srv) srv)
  whois args srv = tell_to c.ws (codes "Usage: /whois (Player ID)") srv
