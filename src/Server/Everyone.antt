-- ===== src/Server/Everyone.antt =====
-- A property of every client and of every world's default rank, as one that operations keep.
use owop_server_for_heroku_g.Base.{
  ℕ, ◌≡◌, sym, subst, ◌∙◌, ◌≤◌, not, some, List, [], ◌∷◌, either, maybe, arith,
}
use owop_server_for_heroku_g.Base.Words.{Bytes}
use owop_server_for_heroku_g.Base.Eq.{nat_eq, bytes_eq}
use owop_server_for_heroku_g.Base.Assoc.{
  lookup, AllValues, Maybe, erase-AllValues, assign-AllValues, insert-AllValues, lookup-AllValues,
}
use owop_server_for_heroku_g.Database.Storage.{Disk}
use owop_server_for_heroku_g.Database.Handles.{Os}
use owop_server_for_heroku_g.Net.{closed}
use owop_server_for_heroku_g.World.{World}
use owop_server_for_heroku_g.World.Cache.{sched_updates}
use owop_server_for_heroku_g.World.Clients.{rm_cli}
use owop_server_for_heroku_g.World.Edit.Head.{save-SameHead}
use owop_server_for_heroku_g.World.Updates.{is_empty}
use owop_server_for_heroku_g.Client.{Client}
use owop_server_for_heroku_g.Client.Rank
use owop_server_for_heroku_g.Server.{Server, SocketInfo, send}
use owop_server_for_heroku_g.Server.Close.{
  leave, close_world, leave_world, is_lock_holder, on_disconnection, close, kick,
}
use owop_server_for_heroku_g.Server.Gone.{
  worlds-released, worlds-uncount, socks-on_disconnection, socks-close, erase-leave,
}
use owop_server_for_heroku_g.Server.Files.{save_worlds}
use owop_server_for_heroku_g.Server.Kept.{Kept}

default-rm_cli : (ws id : ℕ) (w : World) → (rm_cli ws id w).default_rank ≡ w.default_rank
unfolding rm_cli sched_updates
default-rm_cli ws id w = ground arith

module _ {F : Type 0} (A : Client F → Type 0) (D : ℕ → Type 0) where
  abbrev pub PlayerIs : SocketInfo F → Type 0
  PlayerIs si = Maybe A si.player

  abbrev pub DefaultIs : World → Type 0
  DefaultIs w = D w.default_rank

  pub record Everyone (srv : Server F) : Type 0 where
    pub players : AllValues PlayerIs srv.socks
    pub defaults : AllValues DefaultIs srv.worlds

  abbrev Defaults : Server F → Type 0
  Defaults srv = AllValues DefaultIs srv.worlds

  leave-Defaults :
      (ws : ℕ) (si : SocketInfo F) (cl : Client F) (srv : Server F)
      → Defaults srv
      → Defaults (leave ws si cl srv)
  unfolding leave
  leave-Defaults ws si cl srv v = either Defaults (not cl.handledelete) _ _ v (
      maybe Defaults (lookup cl.wrld srv.worlds) _ _ v (λ w found.
        assign-AllValues DefaultIs _ (rm_cli ws cl.id w) srv.worlds
          (subst D (sym (default-rm_cli ws cl.id w))
            (lookup-AllValues DefaultIs cl.wrld w srv.worlds v found))
          v))

  close_world-Defaults :
      (name : Bytes) (srv : Server F) → Defaults srv → Defaults (close_world name srv)
  unfolding close_world
  close_world-Defaults name srv v = maybe Defaults (lookup name srv.worlds) _ _ v (λ w found.
      either Defaults (is_empty w.clients) _ _ (erase-AllValues DefaultIs name srv.worlds v) v)

  leave_world-Defaults :
      (ws : ℕ) (si : SocketInfo F) (srv : Server F)
      → Defaults srv
      → Defaults (leave_world ws si srv)
  unfolding leave_world
  leave_world-Defaults ws si srv v =
      maybe Defaults si.player _ _ v
        (λ cl e. close_world-Defaults cl.wrld _ (leave-Defaults ws si cl srv v))

  on_disconnection-Defaults :
      (ws : ℕ) (srv : Server F) → Defaults srv → Defaults (on_disconnection ws srv)
  unfolding on_disconnection
  on_disconnection-Defaults ws srv v = maybe Defaults (lookup ws srv.socks) _ _ v (λ si there.
      subst (AllValues DefaultIs)
        (sym (
          worlds-released (is_lock_holder si srv) _ ∙ worlds-uncount si.ip (leave_world ws si srv)))
        (leave_world-Defaults ws si srv v))

  on_disconnection-Everyone :
      (ws : ℕ) (srv : Server F) → Everyone srv → Everyone (on_disconnection ws srv)
  on_disconnection-Everyone ws srv v = record {
    players =
        subst (AllValues PlayerIs) (sym (socks-on_disconnection ws srv))
          (erase-AllValues PlayerIs ws srv.socks v.players);
    defaults = on_disconnection-Defaults ws srv v.defaults;
  }

  kick-Everyone : (ws : ℕ) (srv : Server F) → Everyone srv → Everyone (kick ws srv)
  unfolding kick close
  kick-Everyone ws srv v = maybe Everyone (lookup ws srv.socks) _ _ v (λ si there.
      maybe Everyone si.player _ _ v (λ cl plays.
        let left = leave ws si cl srv in
        either Everyone cl.handledelete _ _
          (record {
            players =
                subst (AllValues PlayerIs) (sym (socks-close ws left ∙ erase-leave ws si cl srv))
                  (erase-AllValues PlayerIs ws srv.socks v.players);
            defaults =
                on_disconnection-Defaults ws (send (closed ws ∷ []) left)
                  (leave-Defaults ws si cl srv v.defaults);
          })
          v))

  save_worlds-Defaults :
      (os : Os) (junk : Bytes) (m : List (Bytes × World)) (disk : Disk)
      → AllValues DefaultIs m
      → AllValues DefaultIs (save_worlds os junk m disk).0
  unfolding save_worlds
  save_worlds-Defaults os junk [] disk v = v
  save_worlds-Defaults os junk ((name, w) ∷ m) disk (d, v) = (
    subst D (sym (save-SameHead os junk w disk).default_rank) d,
    save_worlds-Defaults os junk m _ v,
  )

  pub Everyone-kept :
      ((cl cl' : Client F) → cl'.rank ≡ cl.rank → cl'.handledelete ≡ cl.handledelete → A cl → A cl')
      → ((cl cl' : Client F) → cl'.handledelete ≡ cl.handledelete → D cl'.rank → A cl → A cl')
      → ((cl : Client F) → A cl → D cl.rank)
      → ((m n : ℕ) → m ≤ n → D n → D m)
      → D Rank.user
      → Kept Everyone A D
  Everyone-kept same new ranked lower user = record {
    rest = λ srv srv' w s m a v. record {
      players = subst (AllValues PlayerIs) (sym s) v.players;
      defaults = subst (AllValues DefaultIs) (sym w) v.defaults;
    };
    disconnect_kept = on_disconnection-Everyone;
    accept_kept = λ ws si srv none_yet v. record {
      players =
          insert-AllValues PlayerIs ws si srv.socks (subst (Maybe A) (sym none_yet) tt) v.players;
      defaults = v.defaults;
    };
    stranger_kept = λ ws si srv none_yet v. record {
      players =
          assign-AllValues PlayerIs ws si srv.socks (subst (Maybe A) (sym none_yet) tt) v.players;
      defaults = v.defaults;
    };
    kick_kept = kick-Everyone;
    put_world_kept = λ w srv d v. record {
      players = v.players;
      defaults = assign-AllValues DefaultIs w.name w srv.worlds d v.defaults;
    };
    put_player_kept = λ ws si cl srv a v. record {
      players = assign-AllValues PlayerIs ws (record si { player = some cl }) srv.socks a v.players;
      defaults = v.defaults;
    };
    save_kept = λ os junk srv v. record {
      players = v.players;
      defaults = save_worlds-Defaults os junk srv.worlds srv.disk v.defaults;
    };
    client_of = λ ws si cl srv v there plays.
        subst (Maybe A) plays (lookup-AllValues PlayerIs ws si srv.socks v.players there);
    default_of =
        λ name w srv v found. lookup-AllValues DefaultIs name w srv.worlds v.defaults found;
    same_client = same;
    new_rank = new;
    rank_of = ranked;
    lower = lower;
    user = user;
  }
