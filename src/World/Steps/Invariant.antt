-- ===== src/World/Steps/Invariant.antt =====
-- Every call of a world keeps what holds between two calls, in any order of the calls.
use owop_server_for_heroku_g.Base.{refl, List, [], ◌∷◌, arith}
use owop_server_for_heroku_g.Base.Words.{Bytes, sar}
use owop_server_for_heroku_g.Base.Eq.{nat_eq}
use owop_server_for_heroku_g.Database.{Database, set_chunk_protection, database}
use owop_server_for_heroku_g.Database
use owop_server_for_heroku_g.Database.Storage.{Disk}
use owop_server_for_heroku_g.Database.Handles.{Os}
use owop_server_for_heroku_g.World.Cache.{get_chunk, sched_updates}
use owop_server_for_heroku_g.World.Edit.{send_chunk, put_px}
use owop_server_for_heroku_g.World.Props.{world, set_prop}
use owop_server_for_heroku_g.World.Clients.{get_id, add_cli, upd_cli, update_all_clients}
use owop_server_for_heroku_g.World.Updates.{send_updates, after_updates}
use owop_server_for_heroku_g.World.Steps.{
  Event, State, step, run, joins, moves, leaves, asks, draws, clears, pastes, protects, sets,
  reloads, saves, ticks,
}
use owop_server_for_heroku_g.World.Steps.Operations.{
  rm_cli-IsSound, after_updates-live, reload-IsSound, del_chunk-IsSound, paste_chunk-IsSound,
  put_in_chunk-IsSound, protection-IsSound, save-IsSound,
}
use owop_server_for_heroku_g.World.Steps.Sound.{IsSound, scheduled, get_chunk-IsSound}

module _ (os : Os) (junk : Bytes) where
  step-IsSound : (e : Event) (s : State) → IsSound s.0 → IsSound (step os junk e s).0
  unfolding step send_chunk put_px get_id add_cli upd_cli set_prop send_updates sched_updates
      scheduled update_all_clients after_updates Database.set_prop
  step-IsSound (joins ws) (w, disk) v = record {
    limited = v.limited;
    bounded = v.bounded;
    live = refl;
  }
  step-IsSound (moves ws) (w, disk) v = record {
    limited = v.limited;
    bounded = v.bounded;
    live = refl;
  }
  step-IsSound (leaves ws id) (w, disk) v = rm_cli-IsSound ws id w v
  step-IsSound (asks ws x y) (w, disk) v = get_chunk-IsSound os junk x y w disk v
  step-IsSound (draws x y clr) (w, disk) v =
      put_in_chunk-IsSound os junk x y clr (get_chunk os junk (sar x 4) (sar y 4) w disk)
        (get_chunk-IsSound os junk (sar x 4) (sar y 4) w disk v)
  step-IsSound (clears x y) (w, disk) v = del_chunk-IsSound os junk x y w disk v
  step-IsSound (pastes x y newdata) (w, disk) v = paste_chunk-IsSound os junk x y newdata w disk v
  step-IsSound (protects x y state) (w, disk) v = protection-IsSound os junk x y state w disk v
  step-IsSound (sets key prop) (w, disk) v = record {
    limited = v.limited;
    bounded = record { few_handles = v.bounded.few_handles; few_missing = v.bounded.few_missing };
    live = v.live;
  }
  step-IsSound reloads (w, disk) v = reload-IsSound w v
  step-IsSound saves (w, disk) v = save-IsSound os junk w disk v
  step-IsSound (ticks seen) (w, disk) v = record {
    limited = v.limited;
    bounded = v.bounded;
    live = after_updates-live seen w;
  }

  run-IsSound : (es : List Event) (s : State) → IsSound s.0 → IsSound (run os junk es s).0
  unfolding run
  run-IsSound [] s v = v
  run-IsSound (e ∷ es) s v = run-IsSound es (step os junk e s) (step-IsSound e s v)

world-IsSound : (path name : Bytes) (disk : Disk) → IsSound (world path name disk)
unfolding world database scheduled
world-IsSound path name disk = reload-IsSound _ (record {
  limited = omega arith;
  bounded = record { few_handles = omega arith; few_missing = omega arith };
  live = refl;
})

-- From its constructor on, whatever calls a world gets and in whatever order, whatever lies on the disk
-- and whatever the system answers: at most 2049 chunks are in memory, at most 17 region files are open
-- and 512 regions known to be missing, and while anything is pending for somebody the timer runs.
pub run-world :
    (os : Os) (junk path name : Bytes) (disk : Disk) (es : List Event)
    → IsSound (run os junk es (world path name disk, disk)).0
run-world os junk path name disk es = run-IsSound os junk es _ (world-IsSound path name disk)
