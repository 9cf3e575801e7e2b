-- ===== src/Server/Events.antt =====
-- What happens to a server from outside, one event after another.
pub mod Kept
pub mod Join
pub mod Ranks
pub mod Names
use owop_server_for_heroku_g.Base.{ℕ, none, some, List, [], ◌∷◌, Option}
use owop_server_for_heroku_g.Base.Words.{Bytes}
use owop_server_for_heroku_g.Base.Eq.{bytes_eq}
use owop_server_for_heroku_g.Base.Assoc.{lookup}
use owop_server_for_heroku_g.Limiter.{Float}
use owop_server_for_heroku_g.Database.Handles.{Os}
use owop_server_for_heroku_g.World.Updates.{Seen, send_updates}
use owop_server_for_heroku_g.Server.{Server, SocketInfo, send, put_world}
use owop_server_for_heroku_g.Server.Close.{on_disconnection, end_round}
use owop_server_for_heroku_g.Server.Connect.{on_connection}
use owop_server_for_heroku_g.Server.Message.{OpCode, on_message}
use owop_server_for_heroku_g.Server.Files.{save_now}
use owop_server_for_heroku_g.Server.Find.{client_at}

-- The three handlers of the hub, the timer of a world, the timer of the server and the end of a round
-- of the event loop. The time is that of the clock when the handler is called.
pub data Event : Type 0 where
  connected : ℕ → Bytes → ℕ → Event
  received : ℕ → OpCode → Bytes → ℕ → Event
  disconnected : ℕ → Event
  world_timer : Bytes → Event
  save_timer : Event
  round_over : Event

module _ {F : Type 0} where
  -- What a world reads of its clients for its message.
  unfoldable pub seen_at : List (ℕ × SocketInfo F) → ℕ → Seen
  seen_at socks ws = elim (client_at ws socks) [
    | none ↦ record { id = 0; pos = record { x = 0; y = 0; r = 0; g = 0; b = 0; tool = 0 } }
    | some t ↦ record { id = t.cl.id; pos = t.cl.pos }
  ]

  unfoldable pub on_world_timer : Bytes → Server F → Server F
  on_world_timer name srv = elim (lookup name srv.worlds) [
    | none ↦ srv
    | some w ↦ let (w', sent) = send_updates (seen_at srv.socks) w in send sent (put_world w' srv)
  ]

module _ {F : Type 0} ⦃fl : Float F⦄ (os : Os) (junk : Bytes) where
  unfoldable pub after : Event → Server F → Server F
  after (Event.connected ws address now) srv = on_connection ws address now srv
  after (Event.received ws oc msg now) srv = on_message os junk ws oc msg now srv
  after (Event.disconnected ws) srv = on_disconnection ws srv
  after (Event.world_timer name) srv = on_world_timer name srv
  after Event.save_timer srv = save_now os junk srv
  after Event.round_over srv = end_round os junk srv

  unfoldable pub after_all : List Event → Server F → Server F
  after_all [] srv = srv
  after_all (e ∷ es) srv = after_all es (after e srv)
