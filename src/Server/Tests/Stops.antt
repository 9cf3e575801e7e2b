-- ===== src/Server/Tests/Stops.antt =====
-- Ends of the server of the runs.
use owop_server_for_heroku_g.Base.{ℕ, ◌≡◌, refl, true, [], ◌∷◌, ◌++◌, some, replicate, false}
use owop_server_for_heroku_g.Base.Eq.{nat_eq, bytes_eq, eq_bytes}
use owop_server_for_heroku_g.Base.Assoc.{lookup, erase, contains}
use owop_server_for_heroku_g.Limiter.Whole.{whole}
use owop_server_for_heroku_g.World.{World}
use owop_server_for_heroku_g.Client.{client}
use owop_server_for_heroku_g.Server.{Server, SocketInfo}
use owop_server_for_heroku_g.Server.Events.{Event}
use owop_server_for_heroku_g.Server.Stop.{Life, Step, live, destroy, start}
use owop_server_for_heroku_g.Server.Stop.Gone.{Ends, IsEnded, live-IsEnded}
use owop_server_for_heroku_g.Server.Stop.Leaving.{PlaysIn, Distinct}
use owop_server_for_heroku_g.Server.Stop.Lost.{disk-destroy}
use owop_server_for_heroku_g.Server.Stop.Restart.{contains-start}
use owop_server_for_heroku_g.Server.Tests.{os, server, town, guest, visitor, ban-IsLine}

-- Someone connects, the server is told to stop, a world of it has its timer, the server's is closed.
live-IsEnded_example : IsEnded (
    live os []
      ((Step.happens (Event.connected 9 (51 ∷ []) 0) ∷ [])
        ++ (Step.interrupted
            ∷ ((Step.happens (Event.world_timer (109 ∷ [])) ∷ [])
                ++ (Step.timer_closed ∷ (Step.happens (Event.disconnected 5) ∷ [])))))
      (Life.running server))
unfolding Ends
live-IsEnded_example =
    live-IsEnded os [] (Step.happens (Event.connected 9 (51 ∷ []) 0) ∷ [])
      (Step.happens (Event.world_timer (109 ∷ [])) ∷ []) (Step.happens (Event.disconnected 5) ∷ [])
      Step.timer_closed server tt

-- A world with two guests, and with a chunk that has not been saved.
abbrev den : World
den = record town {
  chunks =
      (
        0 ∷ 0 ∷ 0 ∷ 0 ∷ 0 ∷ 0 ∷ 0 ∷ 0 ∷ [],
        record {
          bgclr = 0xFFFFFF;
          cx = 0;
          cy = 0;
          pixels = replicate 768 7;
          changed = true;
          ranked = false;
        },
      )
      ∷ [];
}

abbrev second : SocketInfo ℕ
second = record visitor { player = some (client 2 7 (109 ∷ []) true).0 }

abbrev busy : Server ℕ
busy = record server { worlds = (109 ∷ [], den) ∷ []; socks = (5, visitor) ∷ (7, second) ∷ [] }

den_found : lookup (109 ∷ []) busy.worlds ≡ some den
unfolding lookup eq_bytes
den_found = refl

visitor-PlaysIn : PlaysIn (109 ∷ []) visitor
unfolding client
visitor-PlaysIn = record { cl = guest; plays = refl; live = refl; inside = refl }

second-PlaysIn : PlaysIn (109 ∷ []) second
unfolding client
second-PlaysIn = record {
  cl = (client 2 7 (109 ∷ []) true).0;
  plays = refl;
  live = refl;
  inside = refl;
}

busy-Distinct : Distinct busy.socks
unfolding Distinct
busy-Distinct = ((refl, tt), (tt, tt))

disk-destroy_example :
    (destroy os [] busy).disk
    ≡ (destroy os [] (record busy { worlds = erase (109 ∷ []) busy.worlds; socks = [] })).disk
disk-destroy_example =
    disk-destroy os [] 5 visitor ((7, second) ∷ []) (109 ∷ []) den busy refl busy-Distinct
      (visitor-PlaysIn, (second-PlaysIn, tt)) refl refl den_found

contains-start_example :
    (contains (50 ∷ []) (start {F = ℕ} [] [] [] [] (destroy os [] server).disk).ipban
      ≡ contains (50 ∷ []) server.ipban)
    × (contains (50 ∷ []) (start {F = ℕ} [] [] [] [] (destroy os [] server).disk).ipwhitelist
        ≡ contains (50 ∷ []) server.ipwhitelist)
    × (contains (50 ∷ []) (start {F = ℕ} [] [] [] [] (destroy os [] server).disk).ipblacklist
        ≡ contains (50 ∷ []) server.ipblacklist)
contains-start_example = contains-start os [] [] [] [] [] (50 ∷ []) server (ban-IsLine, tt) tt tt
