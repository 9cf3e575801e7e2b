-- ===== src/World/Steps.antt =====
-- A world as the server drives it: the calls that it makes, one after the other in any order, and the
-- timer.
pub mod Sound
pub mod Operations
pub mod Invariant
pub mod Rounds
use owop_server_for_heroku_g.Base.{ℕ, Bool, List, [], ◌∷◌}
use owop_server_for_heroku_g.Base.Words.{Bytes}
use owop_server_for_heroku_g.Chunk.{Rgb}
use owop_server_for_heroku_g.Database.Storage.{Disk}
use owop_server_for_heroku_g.Database.Handles.{Os}
use owop_server_for_heroku_g.World.{World}
use owop_server_for_heroku_g.World.Edit.{
  Did, send_chunk, del_chunk, paste_chunk, put_px, set_world_protection, save,
}
use owop_server_for_heroku_g.World.Props.{reload, set_prop}
use owop_server_for_heroku_g.World.Clients.{get_id, add_cli, upd_cli, rm_cli}
use owop_server_for_heroku_g.World.Updates.{Seen, send_updates}

-- `joins` stands for `get_id` and `add_cli`, `ticks` for the timer, with what is then known of the
-- clients.
pub data Event : Type 0 where
  joins : ℕ → Event
  moves : ℕ → Event
  leaves : ℕ → ℕ → Event
  asks : ℕ → ℕ → ℕ → Event
  draws : ℕ → ℕ → Rgb → Event
  clears : ℕ → ℕ → Event
  pastes : ℕ → ℕ → Bytes → Event
  protects : ℕ → ℕ → Bool → Event
  sets : Bytes → Bytes → Event
  reloads : Event
  saves : Event
  ticks : (ℕ → Seen) → Event

abbrev pub State : Type 0
State = World × Disk

abbrev done : Did → State
done d = (d.world, d.disk)

module _ (os : Os) (junk : Bytes) where
  unfoldable pub step : Event → State → State
  step (joins ws) (w, disk) = (add_cli ws (get_id w).1, disk)
  step (moves ws) (w, disk) = (upd_cli ws w, disk)
  step (leaves ws id) (w, disk) = (rm_cli ws id w, disk)
  step (asks ws x y) (w, disk) = done (send_chunk os junk ws x y w disk)
  step (draws x y clr) (w, disk) = done (put_px os junk x y clr w disk)
  step (clears x y) (w, disk) = done (del_chunk os junk x y w disk)
  step (pastes x y newdata) (w, disk) = done (paste_chunk os junk x y newdata w disk)
  step (protects x y state) (w, disk) = done (set_world_protection os junk x y state w disk)
  step (sets key v) (w, disk) = (set_prop w key v, disk)
  step reloads (w, disk) = ((reload w).0, disk)
  step saves (w, disk) = save os junk w disk
  step (ticks seen) (w, disk) = ((send_updates seen w).0, disk)

  unfoldable pub run : List Event → State → State
  run [] s = s
  run (e ∷ es) s = run es (step e s)
