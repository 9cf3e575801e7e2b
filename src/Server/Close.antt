-- ===== src/Server/Close.antt =====
-- The handler of disconnections in server.cpp, and the ways in which the server itself ends a
-- connection. `WebSocket::close` calls the handler before it returns.
use owop_server_for_heroku_g.Base.{
  ℕ, ◌+◌, ◌%◌, Bool, false, not, ◌&&◌, none, some, List, [], ◌∷◌, ◌++◌, ◌==◌, if◌then◌else◌,
}
use owop_server_for_heroku_g.Base.Words.{Bytes}
use owop_server_for_heroku_g.Base.Eq.{nat_eq, bytes_eq}
use owop_server_for_heroku_g.Base.Assoc.{lookup, assign, erase}
use owop_server_for_heroku_g.Database.Storage.{Disk}
use owop_server_for_heroku_g.Database.Handles.{Os}
use owop_server_for_heroku_g.Net.{closed}
use owop_server_for_heroku_g.World.{World}
use owop_server_for_heroku_g.World.Edit.{save}
use owop_server_for_heroku_g.World.Clients.{rm_cli}
use owop_server_for_heroku_g.World.Updates.{is_empty}
use owop_server_for_heroku_g.Client.{Client, is_admin}
use owop_server_for_heroku_g.Server.{
  Server, SocketInfo, send, put_world, put_player, lockdown_check,
}

-- The callbacks at the end of a round of the event loop: each world is deleted, which saves it.
unfoldable pub delete_worlds : Os → Bytes → List World → Disk → Disk
delete_worlds os junk [] disk = disk
delete_worlds os junk (w ∷ ws) disk = delete_worlds os junk ws (save os junk w disk).1

module _ {F : Type 0} where
  -- `Client::safedelete`, up to the closing of the socket.
  unfoldable pub leave : ℕ → SocketInfo F → Client F → Server F → Server F
  leave ws si cl srv =
      if not cl.handledelete
      then srv
      else (let srv' = put_player ws si (record cl { handledelete = false }) srv in
          elim (lookup cl.wrld srv.worlds) [
            | none ↦ srv'
            | some w ↦ put_world (rm_cli ws cl.id w) srv'
          ])

  -- `worlds.erase(w->name); w->safedelete()`, for a world that nobody is left in.
  unfoldable pub close_world : Bytes → Server F → Server F
  close_world name srv = elim (lookup name srv.worlds) [
    | none ↦ srv
    | some w ↦
        if is_empty w.clients
        then record srv { worlds = erase name srv.worlds; closing = srv.closing ++ w ∷ [] }
        else srv
  ]

  -- A count of connections is a `uint8_t`.
  unfoldable pub uncount : Bytes → Server F → Server F
  uncount ip srv = elim (lookup ip srv.conns) [
    | none ↦ srv
    | some n ↦
        let less = (n + 255) % 256 in
        record srv { conns = if less == 0 then erase ip srv.conns else assign ip less srv.conns }
  ]

  unfoldable pub leave_world : ℕ → SocketInfo F → Server F → Server F
  leave_world ws si srv = elim si.player [
    | none ↦ srv
    | some cl ↦ close_world cl.wrld (leave ws si cl srv)
  ]

  unfoldable pub is_lock_holder : SocketInfo F → Server F → Bool
  is_lock_holder si srv = elim si.player [ none ↦ false | some cl ↦ is_admin cl && srv.lockdown ]

  -- The handler, for a socket that the server still has.
  unfoldable pub on_disconnection : ℕ → Server F → Server F
  on_disconnection ws srv = elim (lookup ws srv.socks) [
    | none ↦ srv
    | some si ↦
        let counted = uncount si.ip (leave_world ws si srv) in
        let gone = record counted { socks = erase ws counted.socks } in
        if is_lock_holder si srv then lockdown_check gone else gone
  ]

  -- ws.close()
  unfoldable pub close : ℕ → Server F → Server F
  close ws srv = on_disconnection ws (send (closed ws ∷ []) srv)

  -- player->safedelete(true)
  unfoldable pub kick : ℕ → Server F → Server F
  kick ws srv = elim (lookup ws srv.socks) [
    | none ↦ srv
    | some si ↦ elim si.player [
      | none ↦ srv
      | some cl ↦ if cl.handledelete then close ws (leave ws si cl srv) else srv
    ]
  ]

  unfoldable pub end_round : Os → Bytes → Server F → Server F
  end_round os junk srv = record srv {
    closing = [];
    disk = delete_worlds os junk srv.closing srv.disk;
  }
