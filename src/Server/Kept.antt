-- ===== src/Server/Kept.antt =====
-- What an operation of the server keeps of its sockets and worlds. A property of them that these few
-- laws hold for is kept by everything that the server and the commands do in server.cpp and
-- commands.cpp to clients and worlds.
pub mod Binary
pub mod Messages
use owop_server_for_heroku_g.Base.{
  ℕ, zero, suc, ◌≡◌, refl, ◌≤◌, Bool, true, false, not, ◌&&◌, ◌||◌, Option, none, some, List, [],
  ◌∷◌, ◌++◌, if◌then◌else◌, ltb, length, either, maybe,
}
use owop_server_for_heroku_g.Base.Words.{Bytes, codes}
use owop_server_for_heroku_g.Base.Eq.{nat_eq, bytes_eq, eq_bytes}
use owop_server_for_heroku_g.Base.Assoc.{lookup, erase, assign, insert, contains, emplace}
use owop_server_for_heroku_g.Database.Handles.{Os}
use owop_server_for_heroku_g.Net.{closed}
use owop_server_for_heroku_g.World.{World}
use owop_server_for_heroku_g.Client.{Client, is_admin}
use owop_server_for_heroku_g.Client.Rank
use owop_server_for_heroku_g.Server.{
  Server, SocketInfo, send, put_player, put_world, admintell, broadcastmsg, set_lockdown,
  set_captcha_protection, whitelist_admins, tell_admins,
}
use owop_server_for_heroku_g.Server.Close.{on_disconnection, close, kick}
use owop_server_for_heroku_g.Server.Connect.{ban}
use owop_server_for_heroku_g.Server.Kick.{
  each, kick_of_world, kickall_of, kick_common, kickall, close_of, is_used, kickip, banip,
}
use owop_server_for_heroku_g.Server.Modes.{
  limit_pass, limit_loop, set_max_ip_conns, bot_pass, bot_loop, set_instaban, kick_ips,
  set_proxycheck,
}
use owop_server_for_heroku_g.Server.Files.{writefiles, save_now, save_worlds}

-- `A` is what the property says of each client, `D` of each rank that is given.
pub record Kept {F : Type 0} (P : Server F → Type 0) (A : Client F → Type 0) (D : ℕ → Type 0)
    : Type 0 where
  -- Nothing depends on the rest of the server.
  pub rest :
      (srv srv' : Server F)
      → srv'.worlds ≡ srv.worlds
      → srv'.socks ≡ srv.socks
      → srv'.modpw ≡ srv.modpw
      → srv'.adminpw ≡ srv.adminpw
      → P srv
      → P srv'
  pub disconnect_kept : (ws : ℕ) (srv : Server F) → P srv → P (on_disconnection ws srv)
  pub accept_kept :
      (ws : ℕ) (si : SocketInfo F) (srv : Server F)
      → si.player ≡ none
      → P srv
      → P (record srv { socks = insert ws si srv.socks })
  pub stranger_kept :
      (ws : ℕ) (si : SocketInfo F) (srv : Server F)
      → si.player ≡ none
      → P srv
      → P (record srv { socks = assign ws si srv.socks })
  pub kick_kept : (ws : ℕ) (srv : Server F) → P srv → P (kick ws srv)
  pub put_world_kept : (w : World) (srv : Server F) → D w.default_rank → P srv → P (put_world w srv)
  pub put_player_kept :
      (ws : ℕ) (si : SocketInfo F) (cl : Client F) (srv : Server F)
      → A cl
      → P srv
      → P (put_player ws si cl srv)
  pub save_kept :
      (os : Os) (junk : Bytes) (srv : Server F)
      → P srv
      → P (record srv { worlds = (save_worlds os junk srv.worlds srv.disk).0 })
  pub client_of :
      (ws : ℕ) (si : SocketInfo F) (cl : Client F) (srv : Server F)
      → P srv
      → lookup ws srv.socks ≡ some si
      → si.player ≡ some cl
      → A cl
  pub default_of :
      (name : Bytes) (w : World) (srv : Server F)
      → P srv
      → lookup name srv.worlds ≡ some w
      → D w.default_rank
  pub same_client :
      (cl cl' : Client F) → cl'.rank ≡ cl.rank → cl'.handledelete ≡ cl.handledelete → A cl → A cl'
  pub new_rank :
      (cl cl' : Client F) → cl'.handledelete ≡ cl.handledelete → D cl'.rank → A cl → A cl'
  pub rank_of : (cl : Client F) → A cl → D cl.rank
  pub lower : (m n : ℕ) → m ≤ n → D n → D m
  pub user : D Rank.user

module _ {F : Type 0} (P : Server F → Type 0) (A : Client F → Type 0) (D : ℕ → Type 0)
    (k : Kept P A D) where
  pub close-Kept : (ws : ℕ) (srv : Server F) → P srv → P (close ws srv)
  unfolding close
  close-Kept ws srv p =
      k.disconnect_kept ws (send (closed ws ∷ []) srv) (k.rest srv _ refl refl refl refl p)

  pub admintell-Kept : (msg : Bytes) (srv : Server F) → P srv → P (admintell msg srv)
  unfolding admintell
  admintell-Kept msg srv p = k.rest srv _ refl refl refl refl p

  pub set_lockdown-Kept : (b : Bool) (srv : Server F) → P srv → P (set_lockdown b srv)
  unfolding set_lockdown admintell
  set_lockdown-Kept true srv p = k.rest srv _ refl refl refl refl p
  set_lockdown-Kept false srv p = k.rest srv _ refl refl refl refl p

  pub set_captcha_protection-Kept :
      (b : Bool) (srv : Server F) → P srv → P (set_captcha_protection b srv)
  unfolding set_captcha_protection admintell
  set_captcha_protection-Kept true srv p = k.rest srv _ refl refl refl refl p
  set_captcha_protection-Kept false srv p = k.rest srv _ refl refl refl refl p

  each-Kept :
      (act : ℕ → SocketInfo F → Server F → Server F) (m : List (ℕ × SocketInfo F)) (srv : Server F)
      → ((ws : ℕ) (si : SocketInfo F) (s : Server F) → P s → P (act ws si s))
      → P srv
      → P (each act m srv)
  unfolding each
  each-Kept act [] srv h p = p
  each-Kept act ((ws, seen) ∷ m) srv h p =
      each-Kept act m _ h (maybe P (lookup ws srv.socks) _ _ p (λ si e. h ws si srv p))

  kick_of_world-Kept :
      (name : Bytes) (ws : ℕ) (si : SocketInfo F) (srv : Server F)
      → P srv
      → P (kick_of_world name ws si srv)
  unfolding kick_of_world
  kick_of_world-Kept name ws si srv p =
      maybe P si.player _ _ p (λ cl e. either P _ _ _ (k.kick_kept ws srv p) p)

  pub kickall_of-Kept : (name : Bytes) (srv : Server F) → P srv → P (kickall_of name srv)
  unfolding kickall_of
  kickall_of-Kept name srv p = each-Kept _ srv.socks srv (kick_of_world-Kept name) p

  kick_common-Kept :
      (ws : ℕ) (si : SocketInfo F) (srv : Server F) → P srv → P (kick_common ws si srv)
  unfolding kick_common
  kick_common-Kept ws si srv p =
      maybe P si.player _ _ (close-Kept ws srv p) (λ cl e. either P _ _ _ p (k.kick_kept ws srv p))

  pub kickall-Kept : (srv : Server F) → P srv → P (kickall srv)
  unfolding kickall
  kickall-Kept srv p = each-Kept _ srv.socks srv kick_common-Kept p

  close_of-Kept :
      (ip : Bytes) (ws : ℕ) (si : SocketInfo F) (srv : Server F) → P srv → P (close_of ip ws si srv)
  unfolding close_of
  close_of-Kept ip ws si srv p = either P _ _ _ (close-Kept ws srv p) p

  pub kickip-Kept : (ip : Bytes) (srv : Server F) → P srv → P (kickip ip srv)
  unfolding kickip admintell
  kickip-Kept ip srv p =
      let closed = each (close_of ip) srv.socks srv in
      let q : P closed = each-Kept (close_of ip) srv.socks srv (close_of-Kept ip) p in
      let told = admintell (codes "DEVKicked IP: " ++ ip) closed in
      let last = record told { conns = erase ip told.conns } in
      either P (is_used ip srv.socks) last closed (k.rest closed last refl refl refl refl q) q

  pub banip-Kept : (ip : Bytes) (srv : Server F) → P srv → P (banip ip srv)
  unfolding banip ban admintell
  banip-Kept ip srv p =
      let q : P (ban ip srv) = k.rest srv _ refl refl refl refl p in
      either P _ _ _ p
        (maybe P (lookup ip (ban ip srv).conns) _ _ q (λ n e. kickip-Kept ip (ban ip srv) q))

  abbrev After : Server F × Bool → Type 0
  After did = P did.0

  limit_pass-Kept :
      (max : ℕ) (m : List (ℕ × SocketInfo F)) (remaining : Bool) (srv : Server F)
      → P srv
      → After (limit_pass max m remaining srv)
  unfolding limit_pass
  limit_pass-Kept max [] remaining srv p = p
  limit_pass-Kept max ((ws, si) ∷ m) remaining srv p =
      let next = limit_pass-Kept max m remaining srv p in
      let skipped = limit_pass-Kept max m false srv p in
      maybe After (lookup si.ip srv.conns) _ _ next (λ n e.
        either After (ltb max n) _ _
          (maybe After si.player _ _ (close-Kept ws srv p)
            (λ cl e. either After (is_admin cl) _ _ skipped (k.kick_kept ws srv p)))
          next)

  limit_loop-Kept : (fuel max : ℕ) (srv : Server F) → P srv → P (limit_loop fuel max srv)
  unfolding limit_loop
  limit_loop-Kept zero max srv p = p
  limit_loop-Kept (suc fuel) max srv p =
      let did = limit_pass max srv.socks false srv in
      let q = limit_pass-Kept max srv.socks false srv p in
      either P did.1 (limit_loop fuel max did.0) did.0 (limit_loop-Kept fuel max did.0 q) q

  pub set_max_ip_conns-Kept : (max : ℕ) (srv : Server F) → P srv → P (set_max_ip_conns max srv)
  unfolding set_max_ip_conns
  set_max_ip_conns-Kept max srv p = limit_loop-Kept _ max _ (k.rest srv _ refl refl refl refl p)

  bot_pass-Kept : (m : List (ℕ × SocketInfo F)) (srv : Server F) → P srv → After (bot_pass m srv)
  unfolding bot_pass
  bot_pass-Kept [] srv p = p
  bot_pass-Kept ((ws, si) ∷ m) srv p =
      either After (eq_bytes si.origin (codes "(None)")) _ _ (close-Kept ws srv p)
        (bot_pass-Kept m srv p)

  bot_loop-Kept : (fuel : ℕ) (srv : Server F) → P srv → P (bot_loop fuel srv)
  unfolding bot_loop
  bot_loop-Kept zero srv p = p
  bot_loop-Kept (suc fuel) srv p =
      let did = bot_pass srv.socks srv in
      let q = bot_pass-Kept srv.socks srv p in
      either P did.1 (bot_loop fuel did.0) did.0 (bot_loop-Kept fuel did.0 q) q

  pub set_instaban-Kept : (b : Bool) (srv : Server F) → P srv → P (set_instaban b srv)
  unfolding set_instaban
  set_instaban-Kept true srv p =
      admintell-Kept _ _ (bot_loop-Kept _ _ (k.rest srv _ refl refl refl refl p))
  set_instaban-Kept false srv p = admintell-Kept _ _ (k.rest srv _ refl refl refl refl p)

  kick_ips-Kept : (ips : List Bytes) (srv : Server F) → P srv → P (kick_ips ips srv)
  unfolding kick_ips
  kick_ips-Kept [] srv p = p
  kick_ips-Kept (ip ∷ ips) srv p = kick_ips-Kept ips _ (kickip-Kept ip srv p)

  pub set_proxycheck-Kept : (b : Bool) (srv : Server F) → P srv → P (set_proxycheck b srv)
  unfolding set_proxycheck
  set_proxycheck-Kept true srv p = admintell-Kept _ _ (k.rest srv _ refl refl refl refl p)
  set_proxycheck-Kept false srv p =
      let kicked = kick_ips srv.proxyquery_checking (record srv { proxy_lock = false }) in
      let q : P kicked =
        kick_ips-Kept srv.proxyquery_checking _ (k.rest srv _ refl refl refl refl p) in
      admintell-Kept _ _ (k.rest kicked _ refl refl refl refl q)

  pub save_now-Kept : (os : Os) (junk : Bytes) (srv : Server F) → P srv → P (save_now os junk srv)
  unfolding save_now writefiles
  save_now-Kept os junk srv p = admintell-Kept _ _ (
      k.rest (record srv { worlds = (save_worlds os junk srv.worlds srv.disk).0 }) _ refl refl refl
        refl (k.save_kept os junk srv p))
