-- ===== src/Server/Message.antt =====
-- The handler of messages in server.cpp. A binary message is told apart by its length alone.
use owop_server_for_heroku_g.Base.{
  ℕ, ◌+◌, ◌*◌, ◌-◌, ◌^◌, Bool, true, not, ◌&&◌, ◌||◌, none, some, ◌++◌, ltb, leb, ◌==◌,
  if◌then◌else◌, take, drop, length, get_or,
}
use owop_server_for_heroku_g.Base.Words.{Bytes, codes}
use owop_server_for_heroku_g.Base.Eq.{nat_eq, bytes_eq}
use owop_server_for_heroku_g.Base.Assoc.{lookup}
use owop_server_for_heroku_g.Limiter.{Float}
use owop_server_for_heroku_g.Utf8.{get_utf8_strlen}
use owop_server_for_heroku_g.Chunk.{Rgb}
use owop_server_for_heroku_g.Database.Handles.{Os}
use owop_server_for_heroku_g.World.{World, Pinfo}
use owop_server_for_heroku_g.World.Edit.{
  Did, send_chunk, del_chunk, paste_chunk, set_world_protection,
}
use owop_server_for_heroku_g.Client.{
  Client, is_admin, is_mod, tell, move, put_px, can_chat, chat, warn,
}
use owop_server_for_heroku_g.Client.Rank
use owop_server_for_heroku_g.Server.{Server, SocketInfo, send, put_world, put_player, admintell}
use owop_server_for_heroku_g.Server.Connect.{ca_ok}
use owop_server_for_heroku_g.Server.Close.{close, kick}
use owop_server_for_heroku_g.Server.Join.{join_world}
use owop_server_for_heroku_g.Commands.Exec.{exec}

-- `uWS::OpCode`.
pub data OpCode : Type 0 where
  text_code : OpCode
  binary_code : OpCode

-- The `int32_t` at a place of the message.
abbrev pub int_at : Bytes → ℕ → ℕ
int_at msg i =
    get_or msg i 0
    + get_or msg (i + 1) 0 * 2 ^ 8
    + get_or msg (i + 2) 0 * 2 ^ 16
    + get_or msg (i + 3) 0 * 2 ^ 24

abbrev pub pinfo_at : Bytes → Pinfo
pinfo_at msg = record {
  x = int_at msg 0;
  y = int_at msg 4;
  r = get_or msg 8 0;
  g = get_or msg 9 0;
  b = get_or msg 10 0;
  tool = get_or msg 11 0;
}

abbrev pub rgb_at : Bytes → Rgb
rgb_at msg = record { r = get_or msg 8 0; g = get_or msg 9 0; b = get_or msg 10 0 }

-- The tools that everybody may hold.
unfoldable pub is_common_tool : ℕ → Bool
is_common_tool tool = leb tool 2 || tool == 4 || tool == 5 || tool == 7 || tool == 8

module _ {F : Type 0} where
  unfoldable pub is_staff : Client F → Bool
  is_staff cl = is_admin cl || is_mod cl

  -- An operation on the world of a client; what it sends is sent.
  unfoldable pub on_world : Client F → (World → Did) → Server F → Server F
  on_world cl op srv = elim (lookup cl.wrld srv.worlds) [
    | none ↦ srv
    | some w ↦
        let did = op w in send did.sent (put_world did.world (record srv { disk = did.disk }))
  ]

  unfoldable pub on_rank : ℕ → Client F → Bytes → Server F → Server F
  on_rank ws cl msg srv = if ltb cl.rank (get_or msg 0 0) then kick ws srv else srv

  unfoldable pub on_move : ℕ → SocketInfo F → Client F → Pinfo → Server F → Server F
  on_move ws si cl pos srv = elim (lookup cl.wrld srv.worlds) [
    | none ↦ srv
    | some w ↦
        let shown =
          if is_common_tool pos.tool || is_staff cl then pos else record pos { tool = 0 } in
        let (cl', w') = move cl shown w in put_player ws si cl' (put_world w' srv)
  ]

  module _ (os : Os) (junk : Bytes) where
    unfoldable pub on_protect : Client F → Bytes → Server F → Server F
    on_protect cl msg srv =
        if ltb cl.rank Rank.moderator
        then send (tell cl (codes "Stop playing around with mod tools! :)")) srv
        else on_world cl
            (λ w.
              set_world_protection os junk (int_at msg 0) (int_at msg 4) (not (get_or msg 8 0 == 0))
                w srv.disk)
            srv

    unfoldable pub on_paste : ℕ → SocketInfo F → Client F → Bytes → Server F → Server F
    on_paste ws si cl msg srv =
        if is_staff cl
        then on_world cl
            (λ w. paste_chunk os junk (int_at msg 0) (int_at msg 4) (drop 8 msg) w srv.disk) srv
        else close ws (
            admintell (codes "Cheating admin/mod tools IP: " ++ si.ip)
              (send (tell cl (codes "You cheating? I don't like hackers!!!")) srv))

module _ {F : Type 0} ⦃fl : Float F⦄ where
  -- A line that is short enough. The limits follow each other in the order of the source, and the
  -- token is spent only where the ones before it do not hold.
  unfoldable pub may_say : Client F → Bytes → ℕ → Client F × Bool
  may_say cl line now =
      let (spent, granted) = can_chat cl now in
      let n = get_utf8_strlen line in
      if is_admin cl && leb n 16384
      then (cl, true)
      else if is_mod cl && leb n 512
      then (cl, true)
      else (spent, granted && leb n 128)

  -- The last two branches, for a socket without a client.
  unfoldable pub on_stranger : ℕ → SocketInfo F → OpCode → Bytes → Server F → Server F
  on_stranger ws si text_code msg srv = close ws srv
  on_stranger ws si binary_code msg srv =
      let len = length msg in
      if si.captcha_verified == ca_ok && ltb 2 len && leb (len - 2) 24
      then join_world ws (take (len - 2) msg) srv
      else close ws srv

module _ {F : Type 0} ⦃fl : Float F⦄ (os : Os) (junk : Bytes) where
  unfoldable pub on_pixel : ℕ → SocketInfo F → Client F → Bytes → ℕ → Server F → Server F
  on_pixel ws si cl msg now srv = elim (lookup cl.wrld srv.worlds) [
    | none ↦ srv
    | some w ↦
        let (cl', did) =
          put_px os junk cl (int_at msg 0) (int_at msg 4) (rgb_at msg) now w srv.disk in
        put_player ws si cl' (put_world did.world (record srv { disk = did.disk }))
  ]

  unfoldable pub on_binary : ℕ → SocketInfo F → Client F → Bytes → ℕ → Server F → Server F
  on_binary ws si cl msg now srv =
      let len = length msg in
      if len == 1
      then on_rank ws cl msg srv
      else if len == 8
      then on_world cl (λ w. send_chunk os junk ws (int_at msg 0) (int_at msg 4) w srv.disk) srv
      else if len == 9
      then on_world cl (λ w. del_chunk os junk (int_at msg 0) (int_at msg 4) w srv.disk) srv
      else if len == 10
      then on_protect os junk cl msg srv
      else if len == 11
      then on_pixel ws si cl msg now srv
      else if len == 12
      then on_move ws si cl (pinfo_at msg) srv
      else if len == 776
      then on_paste os junk ws si cl msg srv
      else srv

  unfoldable pub on_line : ℕ → Client F → Bytes → Server F → Server F
  on_line ws cl line srv =
      if get_or line 0 0 == 47
      then (exec os junk ws (drop 1 line) srv).1
      else elim (lookup cl.wrld srv.worlds) [ none ↦ srv | some w ↦ send (chat cl line w) srv ]

  unfoldable pub on_text : ℕ → SocketInfo F → Client F → Bytes → ℕ → Server F → Server F
  on_text ws si cl line now srv =
      let (cl', granted) = may_say cl line now in
      let (warned, closes) = warn cl' in
      if granted
      then on_line ws cl' line (put_player ws si cl' srv)
      else if closes
      then kick ws (put_player ws si warned srv)
      else put_player ws si warned srv

  unfoldable pub on_client : ℕ → SocketInfo F → Client F → OpCode → Bytes → ℕ → Server F → Server F
  on_client ws si cl binary_code msg now srv = on_binary ws si cl msg now srv
  on_client ws si cl text_code msg now srv =
      let len = length msg in
      if ltb 1 len && get_or msg (len - 1) 0 == 10
      then on_text ws si cl (take (len - 1) msg) now srv
      else srv

  unfoldable pub on_message : ℕ → OpCode → Bytes → ℕ → Server F → Server F
  on_message ws oc msg now srv = elim (lookup ws srv.socks) [
    | none ↦ srv
    | some si ↦ elim si.player [
      | none ↦ on_stranger ws si oc msg srv
      | some cl ↦ on_client ws si cl oc msg now srv
    ]
  ]
