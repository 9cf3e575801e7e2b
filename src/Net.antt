-- ===== src/Net.antt =====
-- What the server hands to uWebSockets, in the order in which it does.
pub mod Tag
use owop_server_for_heroku_g.Base.{ℕ, List, [], ◌∷◌, ◌++◌, map, Bool}
use owop_server_for_heroku_g.Base.Words.{Bytes}

-- A text or binary frame to a socket, a text to every socket, and the end of a socket.
pub data Out : Type 0 where
  text : ℕ → Bytes → Out
  binary : ℕ → Bytes → Out
  to_all : Bytes → Out
  closed : ℕ → Out

-- The loop with `sendPrepared` over the clients of a world.
unfoldable pub prepared : (ℕ → Bytes → Out) → Bytes → List ℕ → List Out
prepared frame msg clients = map (λ ws. frame ws msg) clients
