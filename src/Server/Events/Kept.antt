-- ===== src/Server/Events/Kept.antt =====
-- What every event keeps.
use owop_server_for_heroku_g.Base.{
  ℕ, ◌≡◌, refl, ◌≤◌, ◌+◌, ◌%◌, Bool, not, ◌&&◌, ◌||◌, none, [], ◌==◌, if◌then◌else◌, ltb, All,
  either, maybe, length,
}
use owop_server_for_heroku_g.Base.Words.{Bytes, codes}
use owop_server_for_heroku_g.Base.Eq.{nat_eq, bytes_eq, eq_bytes}
use owop_server_for_heroku_g.Base.Assoc.{lookup, insert, contains}
use owop_server_for_heroku_g.Limiter.{Float, can_spend}
use owop_server_for_heroku_g.Args.{split_args}
use owop_server_for_heroku_g.Database.Handles.{Os}
use owop_server_for_heroku_g.World.Updates.{send_updates, after_updates}
use owop_server_for_heroku_g.Client.{Client}
use owop_server_for_heroku_g.Server.{Server, SocketInfo, put_world}
use owop_server_for_heroku_g.Server.Close.{end_round}
use owop_server_for_heroku_g.Server.Connect.{
  ca_ok, ca_waiting, plain_ip, ban, refuse, request_captcha, act_fast, limit_rate, count_conn,
  on_connection,
}
use owop_server_for_heroku_g.Server.Join.{join_world}
use owop_server_for_heroku_g.Server.Kept.{Kept, close-Kept, admintell-Kept, save_now-Kept}
use owop_server_for_heroku_g.Server.Kept.Messages.{command_of, on_message-Kept}
use owop_server_for_heroku_g.Server.Events.{Event, seen_at, on_world_timer, after}
use owop_server_for_heroku_g.Commands.Kept.Rights.{Opens}

module _ {F : Type 0} ⦃fl : Float F⦄ (P : Server F → Type 0) (A : Client F → Type 0)
    (D : ℕ → Type 0) (k : Kept P A D) where
  ban-Kept : (ip : Bytes) (srv : Server F) → P srv → P (ban ip srv)
  unfolding ban
  ban-Kept ip srv p = admintell-Kept P A D k _ _ (k.rest srv _ refl refl refl refl p)

  refuse-Kept : (ws : ℕ) (banned : Bool) (srv : Server F) → P srv → P (refuse ws banned srv)
  unfolding refuse
  refuse-Kept ws banned srv p = close-Kept P A D k ws _ (k.rest srv _ refl refl refl refl p)

  request_captcha-Kept : (ws : ℕ) (srv : Server F) → P srv → P (request_captcha ws srv)
  unfolding request_captcha
  request_captcha-Kept ws srv p =
      maybe P (lookup ws srv.socks) _ _ p (λ si e. k.rest srv _ refl refl refl refl p)

  act_fast-Kept :
      (ws : ℕ) (si : SocketInfo F) (srv : Server F)
      → si.player ≡ none
      → P srv
      → P (act_fast ws si srv)
  unfolding act_fast
  act_fast-Kept ws si srv new p =
      either P (srv.fastconnectaction == 3) _ _ (k.stranger_kept ws _ srv new p) (
        either P (srv.fastconnectaction == 2) _ _ (close-Kept P A D k ws _ (ban-Kept si.ip srv p))
          (either P (srv.fastconnectaction == 1) _ _ (close-Kept P A D k ws srv p) p))

  limit_rate-Kept :
      (ws : ℕ) (si : SocketInfo F) (now : ℕ) (srv : Server F)
      → si.player ≡ none
      → P srv
      → P (limit_rate ws si now srv)
  unfolding limit_rate
  limit_rate-Kept ws si now srv new p =
      let (b, granted) = can_spend srv.connlimiter now 1 in
      let srv' = record srv { connlimiter = b } in
      let q : P srv' = k.rest srv srv' refl refl refl refl p in
      request_captcha-Kept ws _
        (either P granted srv' (act_fast ws si srv') q (act_fast-Kept ws si srv' new q))

  count_conn-Kept :
      (ws : ℕ) (si : SocketInfo F) (blacklisted : Bool) (now : ℕ) (srv : Server F)
      → si.player ≡ none
      → P srv
      → P (count_conn ws si blacklisted now srv)
  unfolding count_conn
  count_conn-Kept ws si blacklisted now srv new p =
      maybe P (lookup si.ip srv.conns) _ _
        (limit_rate-Kept ws si now _ new (k.rest srv _ refl refl refl refl p))
        (λ n e.
          either P (ltb srv.maxconns ((n + 1) % 256) || blacklisted) _ _
            (close-Kept P A D k ws _ (k.rest srv _ refl refl refl refl p))
            (limit_rate-Kept ws si now _ new (k.rest srv _ refl refl refl refl p)))

  on_connection-Kept :
      (ws : ℕ) (address : Bytes) (now : ℕ) (srv : Server F)
      → P srv
      → P (on_connection ws address now srv)
  unfolding on_connection
  on_connection-Kept ws address now srv p =
      let ip = plain_ip address in
      let whitelisted = contains ip srv.ipwhitelist in
      let banned = contains ip srv.ipban in
      let si : SocketInfo F = record {
        origin = [];
        ip = ip;
        player = none;
        captcha_verified =
            if srv.captcha_required && not (whitelisted && srv.trusting_captcha)
            then ca_waiting
            else ca_ok;
      } in
      let here = record srv { socks = insert ws si srv.socks } in
      let q : P here = k.accept_kept ws si srv refl p in
      either P ((srv.lockdown && not whitelisted) || banned) _ _ (refuse-Kept ws banned here q) (
        either P (srv.instaban && eq_bytes si.origin (codes "(None)")) _ _
          (close-Kept P A D k ws _ (ban-Kept ip here q))
          (count_conn-Kept ws si (contains ip srv.ipblacklist) now here refl q))

  on_world_timer-Kept : (name : Bytes) (srv : Server F) → P srv → P (on_world_timer name srv)
  unfolding on_world_timer send_updates after_updates
  on_world_timer-Kept name srv p = maybe P (lookup name srv.worlds) _ _ p (λ w found.
      k.rest (put_world (after_updates (seen_at srv.socks) w) srv) _ refl refl refl refl
        (k.put_world_kept _ srv (k.default_of name w srv p found) p))

  module _ (os : Os) (junk : Bytes)
      (joined : (ws : ℕ) (name : Bytes) (srv : Server F)
        → length name ≤ 24
        → 1 ≤ length name
        → P srv
        → P (join_world ws name srv)) where
    -- No command of the event spells a password that the property does not allow.
    abbrev pub AllowedIn : Event → Server F → Type 0
    AllowedIn (Event.received ws oc msg now) srv = All (Opens D srv) (split_args (command_of msg))
    AllowedIn e srv = Unit

    pub after-Kept :
        (e : Event) (srv : Server F) → AllowedIn e srv → P srv → P (after os junk e srv)
    unfolding after end_round
    after-Kept (Event.connected ws address now) srv o p = on_connection-Kept ws address now srv p
    after-Kept (Event.received ws oc msg now) srv o p =
        on_message-Kept P A D k os junk ws oc msg now srv
          (λ name short filled. joined ws name srv short filled p) o p
    after-Kept (Event.disconnected ws) srv o p = k.disconnect_kept ws srv p
    after-Kept (Event.world_timer name) srv o p = on_world_timer-Kept name srv p
    after-Kept Event.save_timer srv o p = save_now-Kept P A D k os junk srv p
    after-Kept Event.round_over srv o p = k.rest srv _ refl refl refl refl p
