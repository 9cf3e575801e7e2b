-- ===== src/Server/Tests/Typed.antt =====
-- Commands on the server of the runs, with an administrator in it.
use owop_server_for_heroku_g.Base.{ℕ, ◌≡◌, refl, arith, true, false, none, some, List, [], ◌∷◌}
use owop_server_for_heroku_g.Base.Words.{codes, Bytes}
use owop_server_for_heroku_g.Base.Eq.{nat_eq, bytes_eq, eq_bytes}
use owop_server_for_heroku_g.Base.Assoc.{lookup, erase, assign, remove}
use owop_server_for_heroku_g.Limiter.Whole.{whole}
use owop_server_for_heroku_g.Client.{Client, client}
use owop_server_for_heroku_g.Client.Rank
use owop_server_for_heroku_g.Server.{Server, SocketInfo, admintell}
use owop_server_for_heroku_g.Server.Kick.{kickip, banip, each, close_of, is_used}
use owop_server_for_heroku_g.Server.Close.{
  close, on_disconnection, leave_world, leave, is_lock_holder, uncount, close_world,
}
use owop_server_for_heroku_g.World.Clients.{rm_cli}
use owop_server_for_heroku_g.World.Cache.{sched_updates}
use owop_server_for_heroku_g.Server.Connect.{on_connection, plain_ip}
use owop_server_for_heroku_g.Server.Bans.{kickip-Elsewhere, on_connection-banip}
use owop_server_for_heroku_g.Server.Modes.{set_max_ip_conns}
use owop_server_for_heroku_g.Server.Modes.Loop.{Ends, set_max_ip_conns-Ends}
use owop_server_for_heroku_g.Server.Tests.{os, town, guest, visitor, server}
use owop_server_for_heroku_g.Commands.Table.{find_command}
use owop_server_for_heroku_g.Commands.Access.{commands_of, find_command-lookup}
use owop_server_for_heroku_g.Commands.Caller.{Caller}
use owop_server_for_heroku_g.Commands.Exec.{exec}
use owop_server_for_heroku_g.Commands.Moves
use owop_server_for_heroku_g.Commands.Rights
use owop_server_for_heroku_g.Commands.Reach.Users.{exec-Untouched}
use owop_server_for_heroku_g.Commands.Reach.Ranked.{higher-Untouched}

abbrev boss : Client ℕ
boss = record (client 2 7 (109 ∷ []) true).0 { rank = Rank.admin }

abbrev chief : SocketInfo ℕ
chief = record { origin = []; ip = 51 ∷ []; player = some boss; captcha_verified = 3 }

abbrev busy : Server ℕ
busy = record server { socks = (5, visitor) ∷ (7, chief) ∷ [] }

find_command-lookup_example :
    find_command Rank.moderator (codes "kick") ≡ lookup (codes "kick") (commands_of Rank.moderator)
find_command-lookup_example = find_command-lookup Rank.moderator (codes "kick")

guest_there : lookup 5 busy.socks ≡ some visitor
unfolding lookup
guest_there = refl

chief_there : lookup 7 busy.socks ≡ some chief
unfolding lookup
chief_there = refl

exec-Untouched_example : lookup 7 (exec os [] 5 (codes "nick a") busy).1.socks ≡ lookup 7 busy.socks
unfolding client
exec-Untouched_example =
    exec-Untouched os [] 5 7 (codes "nick a") busy visitor guest refl guest_there refl (omega arith)

abbrev guest_calls : Caller ℕ
guest_calls = record { ws = 5; si = visitor; cl = guest; w = town }

abbrev kick_boss : List Bytes
kick_boss = codes "kick" ∷ codes "2" ∷ []

higher-Untouched_example :
    (lookup 7 (Moves.kick guest_calls kick_boss busy).socks ≡ lookup 7 busy.socks)
    × (lookup 7 (Rights.mute guest_calls kick_boss busy).socks ≡ lookup 7 busy.socks)
    × (lookup 7 (Rights.setrank guest_calls kick_boss busy).socks ≡ lookup 7 busy.socks)
unfolding client
higher-Untouched_example =
    higher-Untouched busy guest_calls kick_boss 7 chief boss chief_there refl (omega arith)

-- Too many connections of the guest's address, one of them without a client, and of the chief's.
abbrev stranger : SocketInfo ℕ
stranger = record visitor { player = none }

abbrev full : Server ℕ
full = record busy {
  socks = (5, visitor) ∷ (7, chief) ∷ (9, stranger) ∷ [];
  conns = (49 ∷ [], 3) ∷ (51 ∷ [], 2) ∷ [];
}

set_max_ip_conns-Ends_example : Ends 1 4 (record full { maxconns = 1 }) (set_max_ip_conns 1 full)
unfolding lookup client
set_max_ip_conns-Ends_example =
    set_max_ip_conns-Ends 1 full (refl, (refl, (refl, tt))) (refl, (refl, (tt, tt)))

left_there : lookup 7 (kickip (49 ∷ []) busy).socks ≡ some chief
unfolding kickip each close_of is_used eq_bytes lookup erase assign remove close on_disconnection
    leave_world leave is_lock_holder uncount close_world rm_cli sched_updates admintell client
left_there = refl

kickip-Elsewhere_example : eq_bytes (51 ∷ []) (49 ∷ []) ≡ false
kickip-Elsewhere_example = kickip-Elsewhere (49 ∷ []) busy 7 chief left_there

plain : plain_ip (51 ∷ []) ≡ 51 ∷ []
unfolding plain_ip codes eq_bytes
plain = refl

on_connection-banip_example :
    lookup 9 (on_connection 9 (51 ∷ []) 0 (banip (51 ∷ []) busy)).socks ≡ none
on_connection-banip_example = on_connection-banip (51 ∷ []) (51 ∷ []) 9 0 busy plain
