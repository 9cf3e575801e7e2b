-- ===== src/Commands/Kept/Moves.antt =====
-- The commands that move clients or end connections, and those for settings.
use owop_server_for_heroku_g.Base.{
  ℕ, ◌≡◌, refl, sym, subst, List, [], ◌∷◌, either, maybe, ltb, arith,
}
use owop_server_for_heroku_g.Base.Words.{Bytes, codes}
use owop_server_for_heroku_g.Base.Eq.{nat_eq, bytes_eq, eq_bytes}
use owop_server_for_heroku_g.Base.Assoc.{lookup}
use owop_server_for_heroku_g.Args.Numbers.{read_u32, read_int}
use owop_server_for_heroku_g.World.{World}
use owop_server_for_heroku_g.World.Cache.{sched_updates}
use owop_server_for_heroku_g.World.Clients.{upd_cli}
use owop_server_for_heroku_g.World.Props
use owop_server_for_heroku_g.World.Props.{reload_paintrate, reload_bgclr}
use owop_server_for_heroku_g.Client.{Client, teleport}
use owop_server_for_heroku_g.Server.{Server, SocketInfo, put_player, put_world}
use owop_server_for_heroku_g.Server.Kept.{
  Kept, kickip-Kept, banip-Kept, kickall-Kept, kickall_of-Kept, set_lockdown-Kept,
  set_captcha_protection-Kept, set_max_ip_conns-Kept, set_instaban-Kept, set_proxycheck-Kept,
}
use owop_server_for_heroku_g.Commands.Caller.{Caller}
use owop_server_for_heroku_g.Commands.Rights.{is_true}
use owop_server_for_heroku_g.Commands.Moves
use owop_server_for_heroku_g.Commands.Moves.{
  send_to, move_target, move_self, with_place, kick_target,
}
use owop_server_for_heroku_g.Commands.Settings
use owop_server_for_heroku_g.Commands.Settings.{ip_count, fast_action}
use owop_server_for_heroku_g.Commands.Kept.{Known, with_target-Kept}

default-reload : (w : World) → (Props.reload w).0.default_rank ≡ w.default_rank
unfolding Props.reload reload_paintrate reload_bgclr
default-reload w = ground arith

module _ {F : Type 0} (P : Server F → Type 0) (A : Client F → Type 0) (D : ℕ → Type 0)
    (k : Kept P A D) where
  send_to-Kept :
      (ws : ℕ) (si : SocketInfo F) (cl : Client F) (x y : ℕ) (srv : Server F)
      → A cl
      → P srv
      → P (send_to ws si cl x y srv)
  unfolding send_to teleport upd_cli sched_updates
  send_to-Kept ws si cl x y srv a p = maybe P (lookup cl.wrld srv.worlds) _ _ p (λ w found.
      let cl' = (teleport cl x y w).0 in
      let w' = (teleport cl x y w).1 in
      let moved = put_player ws si cl' srv in
      k.rest (put_world w' moved) _ refl refl refl refl (
        k.put_world_kept w' moved (k.default_of cl.wrld w srv p found)
          (k.put_player_kept ws si cl' srv (k.same_client cl cl' refl refl a) p)))

  with_place-Kept :
      (a b : Bytes) (srv : Server F) (act : ℕ → ℕ → Server F)
      → P srv
      → ((x y : ℕ) → P (act x y))
      → P (with_place a b srv act)
  unfolding with_place
  with_place-Kept a b srv act p h =
      maybe P (read_int a) _ _ p (λ x e. maybe P (read_int b) _ _ p (λ y e'. h x y))

module _ {F : Type 0} (P : Server F → Type 0) (A : Client F → Type 0) (D : ℕ → Type 0)
    (k : Kept P A D) (c : Caller F) (v : Known P A D k c) where
  pub spawn-Kept : (args : List Bytes) (srv : Server F) → P srv → P (Moves.spawn c args srv)
  unfolding Moves.spawn
  spawn-Kept args srv p =
      k.rest _ _ refl refl refl refl (send_to-Kept P A D k c.ws c.si c.cl 0 0 srv v.client p)

  pub teleport-Kept : (args : List Bytes) (srv : Server F) → P srv → P (Moves.teleport c args srv)
  unfolding Moves.teleport move_self move_target
  teleport-Kept (cmd ∷ a ∷ b ∷ []) srv p = with_place-Kept P A D k a b srv _ p (λ x y.
      send_to-Kept P A D k c.ws c.si c.cl x y _ v.client (k.rest srv _ refl refl refl refl p))
  teleport-Kept (cmd ∷ id ∷ []) srv p =
      with_target-Kept P A D k c id srv srv _ p p
        (λ n t a. send_to-Kept P A D k c.ws c.si c.cl _ _ srv v.client p)
  teleport-Kept (cmd ∷ id ∷ a ∷ b ∷ []) srv p = with_place-Kept P A D k a b srv _ p (λ x y.
      with_target-Kept P A D k c id srv srv _ p p (λ n t a'.
        k.rest _ _ refl refl refl refl (send_to-Kept P A D k t.ws t.si t.cl x y srv a' p)))
  teleport-Kept args srv p = k.rest srv _ refl refl refl refl p

  pub kick-Kept : (args : List Bytes) (srv : Server F) → P srv → P (Moves.kick c args srv)
  unfolding Moves.kick kick_target
  kick-Kept (cmd ∷ id ∷ []) srv p =
      with_target-Kept P A D k c id srv _ _ p (k.rest srv _ refl refl refl refl p) (λ n t a.
        either P (ltb t.cl.rank c.cl.rank) _ _
          (k.rest _ _ refl refl refl refl
            (k.kick_kept t.ws _ (send_to-Kept P A D k t.ws t.si t.cl 0 0 srv a p)))
          (k.rest srv _ refl refl refl refl p))
  kick-Kept args srv p = p

  pub kickip_cmd-Kept : (args : List Bytes) (srv : Server F) → P srv → P (Moves.kickip c args srv)
  unfolding Moves.kickip
  kickip_cmd-Kept (cmd ∷ ip ∷ []) srv p = kickip-Kept P A D k ip srv p
  kickip_cmd-Kept args srv p = k.rest srv _ refl refl refl refl p

  pub banip_cmd-Kept : (args : List Bytes) (srv : Server F) → P srv → P (Moves.banip c args srv)
  unfolding Moves.banip
  banip_cmd-Kept (cmd ∷ ip ∷ []) srv p = banip-Kept P A D k ip srv p
  banip_cmd-Kept args srv p = k.rest srv _ refl refl refl refl p

  pub kickall_cmd-Kept : (args : List Bytes) (srv : Server F) → P srv → P (Moves.kickall c args srv)
  unfolding Moves.kickall
  kickall_cmd-Kept (cmd ∷ whom ∷ []) srv p =
      either P (eq_bytes whom (codes "world")) _ _ (kickall_of-Kept P A D k c.cl.wrld srv p)
        (either P (eq_bytes whom (codes "all")) _ _ (kickall-Kept P A D k srv p) p)
  kickall_cmd-Kept args srv p = k.rest srv _ refl refl refl refl p

  pub setprop-Kept : (args : List Bytes) (srv : Server F) → P srv → P (Settings.setprop c args srv)
  unfolding Settings.setprop Props.set_prop
  setprop-Kept (cmd ∷ key ∷ []) srv p =
      k.rest _ _ refl refl refl refl (k.put_world_kept _ srv v.default p)
  setprop-Kept (cmd ∷ key ∷ val ∷ vs) srv p =
      k.rest _ _ refl refl refl refl (k.put_world_kept _ srv v.default p)
  setprop-Kept args srv p = k.rest srv _ refl refl refl refl p

  pub reload-Kept : (args : List Bytes) (srv : Server F) → P srv → P (Settings.reload c args srv)
  unfolding Settings.reload
  reload-Kept args srv p =
      k.rest _ _ refl refl refl refl
        (k.put_world_kept (Props.reload c.w).0 srv (subst D (sym (default-reload c.w)) v.default) p)

  pub lock-Kept : (args : List Bytes) (srv : Server F) → P srv → P (Settings.lock c args srv)
  unfolding Settings.lock
  lock-Kept (cmd ∷ what ∷ arg ∷ []) srv p =
      let state = eq_bytes arg (codes "true") in
      either P (eq_bytes what (codes "ip")) _ _
        (maybe P (read_u32 arg) _ _ p (λ n e.
          k.rest _ _ refl refl refl refl (set_max_ip_conns-Kept P A D k (ip_count n) srv p)))
        (either P (eq_bytes what (codes "captcha")) _ _
          (k.rest _ _ refl refl refl refl (set_captcha_protection-Kept P A D k state srv p))
          (either P (eq_bytes what (codes "proxy")) _ _
            (k.rest _ _ refl refl refl refl (set_proxycheck-Kept P A D k state srv p))
            (either P (eq_bytes what (codes "trustwhitelist")) _ _
              (k.rest srv _ refl refl refl refl p)
              (either P (eq_bytes what (codes "fastconnects")) _ _
                (k.rest srv _ refl refl refl refl p) p))))
  lock-Kept args srv p = k.rest srv _ refl refl refl refl p

  pub lockdown-Kept :
      (args : List Bytes) (srv : Server F) → P srv → P (Settings.lockdown c args srv)
  unfolding Settings.lockdown
  lockdown-Kept (cmd ∷ arg ∷ []) srv p = set_lockdown-Kept P A D k (is_true arg) srv p
  lockdown-Kept args srv p = k.rest srv _ refl refl refl refl p

  pub bansuspicious-Kept :
      (args : List Bytes) (srv : Server F) → P srv → P (Settings.bansuspicious c args srv)
  unfolding Settings.bansuspicious
  bansuspicious-Kept (cmd ∷ arg ∷ []) srv p =
      k.rest _ _ refl refl refl refl (set_instaban-Kept P A D k (is_true arg) srv p)
  bansuspicious-Kept args srv p = k.rest srv _ refl refl refl refl p
