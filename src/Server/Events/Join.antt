-- ===== src/Server/Events/Join.antt =====
-- Whoever joins a world has the property too, if a new client has it.
use owop_server_for_heroku_g.Base.{
  ℕ, ◌≡◌, refl, sym, subst, ◌∙◌, true, not, List, arith, either, maybe,
}
use owop_server_for_heroku_g.Base.Words.{Bytes, codes}
use owop_server_for_heroku_g.Base.Eq.{nat_eq, bytes_eq, eq_bytes}
use owop_server_for_heroku_g.Base.Assoc.{
  lookup, assign-AllValues, insert-AllValues, lookup-AllValues,
}
use owop_server_for_heroku_g.Limiter.{Float}
use owop_server_for_heroku_g.Database.Storage.{Disk}
use owop_server_for_heroku_g.Net.{Out}
use owop_server_for_heroku_g.World.{World}
use owop_server_for_heroku_g.World.Cache.{sched_updates}
use owop_server_for_heroku_g.World.Clients
use owop_server_for_heroku_g.World.Clients.{get_id, update_all_clients}
use owop_server_for_heroku_g.World.Props.{world, reload, reload_paintrate, reload_bgclr}
use owop_server_for_heroku_g.World.Updates.{is_empty}
use owop_server_for_heroku_g.Client.{Client, client, promote}
use owop_server_for_heroku_g.Client.Rank
use owop_server_for_heroku_g.Server.{Server, SocketInfo}
use owop_server_for_heroku_g.Server.Join.{is_name, add_cli, find_world, enter, join_world}
use owop_server_for_heroku_g.Commands.Kept.Rights.{rank-promote, handledelete-promote}
use owop_server_for_heroku_g.Server.Kept.{Kept, close-Kept}
use owop_server_for_heroku_g.Server.Everyone.{Everyone, PlayerIs, DefaultIs}

default-world : (path name : Bytes) (disk : Disk) → (world path name disk).default_rank ≡ Rank.user
unfolding world reload reload_paintrate reload_bgclr
default-world path name disk = ground arith

module _ {F : Type 0} ⦃fl : Float F⦄ (A : Client F → Type 0) (D : ℕ → Type 0)
    (k : Kept (Everyone A D) A D)
    (fresh : (cl : Client F) → cl.handledelete ≡ true → D cl.rank → A cl) where
  default-add_cli : (cl : Client F) (w : World) → (add_cli cl w).1.default_rank ≡ w.default_rank
  unfolding add_cli Clients.add_cli update_all_clients sched_updates
  default-add_cli cl w = refl

  add_cli-fresh :
      (cl : Client F) (w : World) → cl.handledelete ≡ true → D w.default_rank → A (add_cli cl w).0
  unfolding add_cli
  add_cli-fresh cl w live d =
      let Good : Client F × List Out → Type 0 = λ did. A did.0 in
      let promoted : (n : ℕ) → D n → A (promote cl n w.paintrate).0 = λ n dn.
        fresh _ (handledelete-promote cl n w.paintrate ∙ live)
          (subst D (sym (rank-promote cl n w.paintrate)) dn) in
      either Good (is_empty w.pass) _ _ (promoted w.default_rank d)
        (promoted Rank.none (k.lower _ _ (omega arith) k.user))

  find_world-Everyone :
      (name : Bytes) (srv : Server F)
      → Everyone A D srv
      → D (find_world name srv).0.default_rank × Everyone A D (find_world name srv).1
  unfolding find_world
  find_world-Everyone name srv v =
      let Good : World × Server F → Type 0 = λ did. D did.0.default_rank × Everyone A D did.1 in
      let d : D (world srv.path name srv.disk).default_rank =
        subst D (sym (default-world srv.path name srv.disk)) k.user in
      maybe Good (lookup name srv.worlds) _ _
        (
          d,
          record {
            players = v.players;
            defaults = insert-AllValues (DefaultIs A D) name _ srv.worlds d v.defaults;
          },
        )
        (λ w found. (lookup-AllValues (DefaultIs A D) name w srv.worlds v.defaults found, v))

  enter-Everyone :
      (ws : ℕ) (si : SocketInfo F) (w : World) (srv : Server F)
      → D w.default_rank
      → Everyone A D srv
      → Everyone A D (enter ws si w srv)
  unfolding enter get_id client Clients.add_cli update_all_clients sched_updates
  enter-Everyone ws si w srv d v =
      let w1 = (get_id w).1 in
      let cl =
        (client (get_id w).0 ws w.name
          (not (eq_bytes si.origin (codes "https://owoppa.netlify.com")))).0 in
      record {
        players =
            assign-AllValues (PlayerIs A D) ws _ srv.socks (add_cli-fresh cl w1 refl d) v.players;
        defaults =
            assign-AllValues (DefaultIs A D) _ _ srv.worlds
              (subst D (sym (default-add_cli cl w1)) d) v.defaults;
      }

  pub join_world-Everyone :
      (ws : ℕ) (name : Bytes) (srv : Server F)
      → Everyone A D srv
      → Everyone A D (join_world ws name srv)
  unfolding join_world
  join_world-Everyone ws name srv v =
      either (Everyone A D) (not (is_name name)) _ _ (close-Kept (Everyone A D) A D k ws srv v) (
        maybe (Everyone A D) (lookup ws srv.socks) _ _ v (λ si there.
          let (d, u) = find_world-Everyone name srv v in
          enter-Everyone ws si (find_world name srv).0 (find_world name srv).1 d u))
