-- ===== src/Server/Tests/Runs.antt =====
-- Sequences of events on the server of the runs.
use owop_server_for_heroku_g.Base.{refl, arith, List, [], ◌∷◌, All, ◌++◌}
use owop_server_for_heroku_g.Base.Words.{codes}
use owop_server_for_heroku_g.Base.Eq.{nat_eq, bytes_eq, eq_bytes}
use owop_server_for_heroku_g.Args.{split_args}
use owop_server_for_heroku_g.Limiter.Whole.{whole}
use owop_server_for_heroku_g.Client.{client}
use owop_server_for_heroku_g.Server.Message.{text_code, binary_code}
use owop_server_for_heroku_g.Server.Names.{IsNamed}
use owop_server_for_heroku_g.Server.Events.{Event, after_all}
use owop_server_for_heroku_g.Server.Events.Ranks.{Unguessed, after_all-RanksAtMost}
use owop_server_for_heroku_g.Server.Events.Names.{IsLive, after_all-IsNamed, after_all-IsLive}
use owop_server_for_heroku_g.Commands.Ranks.{RanksAtMost}
use owop_server_for_heroku_g.Server.Tests.{os, server, server-IsNamed}

-- Someone connects and joins a world, the guest types a command and leaves.
abbrev day : List Event
day =
    Event.connected 9 (51 ∷ []) 0
    ∷ Event.received 9 binary_code (codes "art" ++ (0 ∷ 0 ∷ [])) 1
    ∷ Event.received 5 text_code (codes "/modlogin x" ++ (10 ∷ [])) 2
    ∷ Event.world_timer (109 ∷ [])
    ∷ Event.disconnected 5
    ∷ Event.save_timer
    ∷ Event.round_over
    ∷ []

after_all-IsNamed_example : IsNamed (after_all os [] day server)
after_all-IsNamed_example = after_all-IsNamed os [] day server server-IsNamed

server-IsLive : IsLive server
unfolding client
server-IsLive = record { players = (refl, tt); defaults = (tt, tt) }

after_all-IsLive_example : IsLive (after_all os [] day server)
after_all-IsLive_example = after_all-IsLive os [] day server server-IsLive

server-RanksAtMost : RanksAtMost 1 server
unfolding client
server-RanksAtMost = record { players = (omega arith, tt); defaults = (omega arith, tt) }

day-Unguessed : All (Unguessed server) day
unfolding split_args codes eq_bytes
day-Unguessed =
    (tt, (((refl, refl), tt), (((refl, refl), ((refl, refl), tt)), (tt, (tt, (tt, (tt, tt)))))))

after_all-RanksAtMost_example : RanksAtMost 1 (after_all os [] day server)
after_all-RanksAtMost_example =
    after_all-RanksAtMost os [] 1 day server (omega arith) day-Unguessed server-RanksAtMost
