-- ===== src/Server/Kept/Messages.antt =====
-- What the handler of messages keeps.
use owop_server_for_heroku_g.Base.{
  ℕ, refl, ◌≤◌, ◌<◌, ◌-◌, ◌&&◌, ◌==◌, if◌then◌else◌, ltb, leb, arith, All, either, maybe, decide,
  length, take, length-take, get_or, drop,
}
use owop_server_for_heroku_g.Base.Words.{Bytes}
use owop_server_for_heroku_g.Base.Eq.{nat_eq, bytes_eq}
use owop_server_for_heroku_g.Base.Assoc.{lookup}
use owop_server_for_heroku_g.Limiter.{Float}
use owop_server_for_heroku_g.Args.{split_args}
use owop_server_for_heroku_g.Database.Handles.{Os}
use owop_server_for_heroku_g.Client.{Client, can_chat, warn}
use owop_server_for_heroku_g.Server.{Server, SocketInfo, put_player}
use owop_server_for_heroku_g.Server.Close.{kick}
use owop_server_for_heroku_g.Server.Connect.{ca_ok}
use owop_server_for_heroku_g.Server.Join.{join_world}
use owop_server_for_heroku_g.Server.Kept.{Kept, close-Kept}
use owop_server_for_heroku_g.Server.Message.{
  OpCode, text_code, binary_code, may_say, on_line, on_text, on_stranger, on_client, on_message,
}
use owop_server_for_heroku_g.Commands.Speech.{is_modpw, is_adminpw}
use owop_server_for_heroku_g.Commands.Kept.Rights.{Opens}
use owop_server_for_heroku_g.Commands.Kept.Exec.{exec-Kept}
use owop_server_for_heroku_g.Server.Kept.Binary.{SamePlayer, player-Kept, on_binary-Kept}

-- What follows the slash of a command, without the newline.
abbrev pub command_of : Bytes → Bytes
command_of msg = drop 1 (take (length msg - 1) msg)

module _ {F : Type 0} ⦃fl : Float F⦄ where
  may_say-SamePlayer :
      (cl : Client F) (line : Bytes) (now : ℕ) → SamePlayer cl (may_say cl line now).0
  unfolding may_say can_chat
  may_say-SamePlayer cl line now = record { rank = ground arith; handledelete = ground arith }

  warn-SamePlayer : (cl : Client F) → SamePlayer cl (warn cl).0
  unfolding warn
  warn-SamePlayer cl = record { rank = ground arith; handledelete = ground arith }

module _ {F : Type 0} ⦃fl : Float F⦄ (P : Server F → Type 0) (A : Client F → Type 0)
    (D : ℕ → Type 0) (k : Kept P A D) (os : Os) (junk : Bytes) where
  on_line-Kept :
      (ws : ℕ) (cl : Client F) (line : Bytes) (srv : Server F)
      → All (Opens D srv) (split_args (drop 1 line))
      → P srv
      → P (on_line os junk ws cl line srv)
  unfolding on_line
  on_line-Kept ws cl line srv o p =
      either P (get_or line 0 0 == 47) _ _ (exec-Kept P A D k os junk ws (drop 1 line) srv o p)
        (maybe P (lookup cl.wrld srv.worlds) _ _ p (λ w e. k.rest srv _ refl refl refl refl p))

  on_text-Kept :
      (ws : ℕ) (si : SocketInfo F) (cl : Client F) (line : Bytes) (now : ℕ) (srv : Server F)
      → All (Opens D srv) (split_args (drop 1 line))
      → A cl
      → P srv
      → P (on_text os junk ws si cl line now srv)
  unfolding on_text is_modpw is_adminpw
  on_text-Kept ws si cl line now srv o a p =
      let said = may_say cl line now in
      let same = may_say-SamePlayer cl line now in
      let a' : A said.0 = k.same_client cl said.0 same.rank same.handledelete a in
      let warned = warn said.0 in
      let spoke = put_player ws si said.0 srv in
      let told = put_player ws si warned.0 srv in
      let told_kept : P told =
        player-Kept P A D k os junk ws si said.0 warned.0 srv (warn-SamePlayer said.0) a' p in
      either P said.1 (on_line os junk ws said.0 line spoke)
        (if warned.1 then kick ws told else told)
        (on_line-Kept ws said.0 line spoke o (k.put_player_kept ws si said.0 srv a' p))
        (either P warned.1 (kick ws told) told (k.kick_kept ws told told_kept) told_kept)

  on_stranger-Kept :
      (ws : ℕ) (si : SocketInfo F) (oc : OpCode) (msg : Bytes) (srv : Server F)
      → ((name : Bytes) → length name ≤ 24 → 1 ≤ length name → P (join_world ws name srv))
      → P srv
      → P (on_stranger ws si oc msg srv)
  unfolding on_stranger
  on_stranger-Kept ws si text_code msg srv joined p = close-Kept P A D k ws srv p
  on_stranger-Kept ws si binary_code msg srv joined p =
      decide P (si.captcha_verified == ca_ok && ltb 2 (length msg) && leb (length msg - 2) 24) _ _
        (λ good.
          let long : 2 < length msg = ground arith in
          let short : length msg - 2 ≤ 24 = ground arith in
          let size = length-take (length msg - 2) msg in
          joined (take (length msg - 2) msg) (omega (arith, size, short))
            (omega (arith, size, long)))
        (λ bad. close-Kept P A D k ws srv p)

  on_client-Kept :
      (ws : ℕ) (si : SocketInfo F) (cl : Client F) (oc : OpCode) (msg : Bytes) (now : ℕ)
      (srv : Server F)
      → All (Opens D srv) (split_args (command_of msg))
      → A cl
      → P srv
      → P (on_client os junk ws si cl oc msg now srv)
  unfolding on_client
  on_client-Kept ws si cl binary_code msg now srv o a p =
      on_binary-Kept P A D k os junk ws si cl msg now srv a p
  on_client-Kept ws si cl text_code msg now srv o a p =
      either P (ltb 1 (length msg) && get_or msg (length msg - 1) 0 == 10) _ _
        (on_text-Kept ws si cl (take (length msg - 1) msg) now srv o a p) p

  pub on_message-Kept :
      (ws : ℕ) (oc : OpCode) (msg : Bytes) (now : ℕ) (srv : Server F)
      → ((name : Bytes) → length name ≤ 24 → 1 ≤ length name → P (join_world ws name srv))
      → All (Opens D srv) (split_args (command_of msg))
      → P srv
      → P (on_message os junk ws oc msg now srv)
  unfolding on_message
  on_message-Kept ws oc msg now srv joined o p = maybe P (lookup ws srv.socks) _ _ p (λ si there.
      maybe P si.player _ _ (on_stranger-Kept ws si oc msg srv joined p) (λ cl plays.
        on_client-Kept ws si cl oc msg now srv o (k.client_of ws si cl srv p there plays) p))
