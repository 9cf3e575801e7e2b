-- ===== src/Server/Apart.antt =====
-- What ending a connection cannot touch: a property that does not depend on the sockets, the worlds, the
-- counts of connections, the lockdown and what is sent.
use owop_server_for_heroku_g.Base.{ℕ, Bool, not, List, either, maybe}
use owop_server_for_heroku_g.Base.Words.{Bytes}
use owop_server_for_heroku_g.Base.Eq.{nat_eq, bytes_eq}
use owop_server_for_heroku_g.Base.Assoc.{lookup, erase}
use owop_server_for_heroku_g.Net.{Out}
use owop_server_for_heroku_g.World.{World}
use owop_server_for_heroku_g.World.Updates.{is_empty}
use owop_server_for_heroku_g.Client.{Client}
use owop_server_for_heroku_g.Server.{
  Server, SocketInfo, any_connected, lockdown_check, set_lockdown, admintell,
}
use owop_server_for_heroku_g.Server.Close.{
  leave, close_world, uncount, leave_world, is_lock_holder, on_disconnection, close, kick,
}

module _ {F : Type 0} (Q : Server F → Type 0)
    (apart : (srv : Server F) (worlds : List (Bytes × World)) (socks : List (ℕ × SocketInfo F))
        (conns : List (Bytes × ℕ)) (closing : List World) (lockdown : Bool) (sent : List Out)
      → Q srv
      → Q (record srv {
        worlds = worlds;
        socks = socks;
        conns = conns;
        closing = closing;
        lockdown = lockdown;
        sent = sent;
      })) where
  -- The same for any server that differs only there.
  leave-Apart :
      (ws : ℕ) (si : SocketInfo F) (cl : Client F) (srv : Server F) → Q srv → Q (leave ws si cl srv)
  unfolding leave
  leave-Apart ws si cl srv v = either Q (not cl.handledelete) _ _ v (
      maybe Q (lookup cl.wrld srv.worlds) _ _ (apart srv _ _ _ _ _ _ v)
        (λ w found. apart srv _ _ _ _ _ _ v))

  leave_world-Apart :
      (ws : ℕ) (si : SocketInfo F) (srv : Server F) → Q srv → Q (leave_world ws si srv)
  unfolding leave_world close_world
  leave_world-Apart ws si srv v = maybe Q si.player _ _ v (λ cl plays.
      let left = leave ws si cl srv in
      let u = leave-Apart ws si cl srv v in
      maybe Q (lookup cl.wrld left.worlds) _ _ u
        (λ w found. either Q (is_empty w.clients) _ _ (apart left _ _ _ _ _ _ u) u))

  uncount-Apart : (ip : Bytes) (srv : Server F) → Q srv → Q (uncount ip srv)
  unfolding uncount
  uncount-Apart ip srv v = maybe Q (lookup ip srv.conns) _ _ v (λ n e. apart srv _ _ _ _ _ _ v)

  lockdown_check-Apart : (srv : Server F) → Q srv → Q (lockdown_check srv)
  unfolding lockdown_check set_lockdown admintell
  lockdown_check-Apart srv v =
      either Q (any_connected srv.ipwhitelist srv.conns) _ _ v (apart srv _ _ _ _ _ _ v)

  pub on_disconnection-Apart : (ws : ℕ) (srv : Server F) → Q srv → Q (on_disconnection ws srv)
  unfolding on_disconnection
  on_disconnection-Apart ws srv v = maybe Q (lookup ws srv.socks) _ _ v (λ si there.
      let counted = uncount si.ip (leave_world ws si srv) in
      let u = uncount-Apart si.ip _ (leave_world-Apart ws si srv v) in
      let gone = record counted { socks = erase ws counted.socks } in
      let same : Q gone = apart counted _ _ _ _ _ _ u in
      either Q (is_lock_holder si srv) (lockdown_check gone) gone (lockdown_check-Apart gone same)
        same)

  pub close-Apart : (ws : ℕ) (srv : Server F) → Q srv → Q (close ws srv)
  unfolding close
  close-Apart ws srv v = on_disconnection-Apart ws _ (apart srv _ _ _ _ _ _ v)

  pub kick-Apart : (ws : ℕ) (srv : Server F) → Q srv → Q (kick ws srv)
  unfolding kick
  kick-Apart ws srv v = maybe Q (lookup ws srv.socks) _ _ v (λ si there.
      maybe Q si.player _ _ v (λ cl plays.
        either Q cl.handledelete _ _ (close-Apart ws _ (leave-Apart ws si cl srv v)) v))
