-- ===== src/Commands/Moves.antt =====
-- The commands of commands.cpp that move clients or end their connections.
use owop_server_for_heroku_g.Base.{ℕ, none, some, List, [], ◌∷◌, ◌++◌, ltb, if◌then◌else◌}
use owop_server_for_heroku_g.Base.Words.{Bytes, codes, to_string, sar}
use owop_server_for_heroku_g.Base.Eq.{nat_eq, bytes_eq, eq_bytes}
use owop_server_for_heroku_g.Base.Assoc.{lookup}
use owop_server_for_heroku_g.Args.Numbers.{read_int}
use owop_server_for_heroku_g.Database.Handles.{to_string_signed}
use owop_server_for_heroku_g.Client
use owop_server_for_heroku_g.Client.{Client}
use owop_server_for_heroku_g.Server.{Server, SocketInfo, send, put_player, put_world}
use owop_server_for_heroku_g.Server.Close
use owop_server_for_heroku_g.Server.Kick
use owop_server_for_heroku_g.Server.Find.{Found}
use owop_server_for_heroku_g.Commands.Caller.{Caller, tell_to, with_target}
use owop_server_for_heroku_g.Commands.Rights.{target_rank}

unfoldable pub place : ℕ → ℕ → Bytes
place x y = to_string_signed x ++ (codes ", " ++ to_string_signed y)

module _ {F : Type 0} where
  -- target->teleport(x, y), for a client of the caller's world.
  unfoldable pub send_to : ℕ → SocketInfo F → Client F → ℕ → ℕ → Server F → Server F
  send_to ws si cl x y srv = elim (lookup cl.wrld srv.worlds) [
    | none ↦ srv
    | some w ↦
        let (cl', w', sent) = Client.teleport cl x y w in
        send sent (put_world w' (put_player ws si cl' srv))
  ]

  -- Both numbers, or nothing is done.
  unfoldable pub with_place : Bytes → Bytes → Server F → (ℕ → ℕ → Server F) → Server F
  with_place a b srv act = elim (read_int a) [
    | none ↦ srv
    | some x ↦ elim (read_int b) [ none ↦ srv | some y ↦ act x y ]
  ]

module _ {F : Type 0} (c : Caller F) where
  unfoldable pub spawn : List Bytes → Server F → Server F
  spawn args srv =
      tell_to c.ws (codes "Server: Teleported to spawn.") (send_to c.ws c.si c.cl 0 0 srv)

  unfoldable pub move_target : ℕ → Found F → ℕ → ℕ → Server F → Server F
  move_target id t x y srv =
      tell_to c.ws
        (codes "Server: Teleported "
          ++ (to_string id
              ++ (codes " from "
                  ++ (place (sar t.cl.pos.x 4) (sar t.cl.pos.y 4) ++ (codes " to " ++ place x y)))))
        (send_to t.ws t.si t.cl x y srv)

  unfoldable pub move_self : ℕ → ℕ → Server F → Server F
  move_self x y srv = send_to c.ws c.si c.cl x y (
      tell_to c.ws
        (codes "Server: Teleported to X: "
          ++ (to_string_signed x ++ (codes ", Y: " ++ to_string_signed y)))
        srv)

  unfoldable pub teleport : List Bytes → Server F → Server F
  teleport (cmd ∷ a ∷ b ∷ []) srv = with_place a b srv (λ x y. move_self x y srv)
  teleport (cmd ∷ id ∷ []) srv =
      with_target c id srv srv
        (λ n t. send_to c.ws c.si c.cl (sar t.cl.pos.x 4) (sar t.cl.pos.y 4) srv)
  teleport (cmd ∷ id ∷ a ∷ b ∷ []) srv =
      with_place a b srv (λ x y. with_target c id srv srv (λ n t. move_target n t x y srv))
  teleport args srv = tell_to c.ws (codes "Usage: /tp [ID] X Y or /tp ID") srv

  unfoldable pub kick_target : ℕ → Found F → Server F → Server F
  kick_target id t srv =
      if ltb t.cl.rank c.cl.rank
      then tell_to c.ws (codes "Kicked user (" ++ (to_string id ++ codes ")"))
          (Close.kick t.ws (send_to t.ws t.si t.cl 0 0 srv))
      else tell_to c.ws target_rank srv

  unfoldable pub kick : List Bytes → Server F → Server F
  kick (cmd ∷ id ∷ []) srv =
      with_target c id srv (tell_to c.ws (codes "Error: User does not exist") srv)
        (λ n t. kick_target n t srv)
  kick args srv = srv

  unfoldable pub kickip : List Bytes → Server F → Server F
  kickip (cmd ∷ ip ∷ []) srv = Kick.kickip ip srv
  kickip args srv = tell_to c.ws (codes "Usage: /kickip IP") srv

  unfoldable pub banip : List Bytes → Server F → Server F
  banip (cmd ∷ ip ∷ []) srv = Kick.banip ip srv
  banip args srv = tell_to c.ws (codes "Usage: /banip IP") srv

  unfoldable pub kickall : List Bytes → Server F → Server F
  kickall (cmd ∷ whom ∷ []) srv =
      if eq_bytes whom (codes "world")
      then Kick.kickall_of c.cl.wrld srv
      else if eq_bytes whom (codes "all")
      then Kick.kickall srv
      else srv
  kickall args srv =
      tell_to c.ws (codes "Usage: /kickall (world, all)")
        (tell_to c.ws (codes "Kicks everyone from the world or all the server, except admins.") srv)
