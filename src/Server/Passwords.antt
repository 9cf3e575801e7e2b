-- ===== src/Server/Passwords.antt =====
-- The passwords of the server, which nothing changes.
use owop_server_for_heroku_g.Base.{ℕ, ◌≡◌, refl, ◌∙◌, Bool, not, List, either, maybe}
use owop_server_for_heroku_g.Base.Words.{Bytes}
use owop_server_for_heroku_g.Base.Eq.{nat_eq, bytes_eq}
use owop_server_for_heroku_g.Base.Assoc.{lookup}
use owop_server_for_heroku_g.Net.{Out}
use owop_server_for_heroku_g.Limiter.{Float}
use owop_server_for_heroku_g.World.{World}
use owop_server_for_heroku_g.Client.{Client}
use owop_server_for_heroku_g.Server.{Server, SocketInfo}
use owop_server_for_heroku_g.Server.Join.{is_name, find_world, enter, join_world}
use owop_server_for_heroku_g.Server.Apart.{on_disconnection-Apart, close-Apart, kick-Apart}
use owop_server_for_heroku_g.Server.Kept.{Kept}

module _ {F : Type 0} (m a : Bytes) where
  pub record HasPasswords (srv : Server F) : Type 0 where
    pub modpw : srv.modpw ≡ m
    pub adminpw : srv.adminpw ≡ a

  kept_apart :
      (srv : Server F) (worlds : List (Bytes × World)) (socks : List (ℕ × SocketInfo F))
      (conns : List (Bytes × ℕ)) (closing : List World) (lockdown : Bool) (sent : List Out)
      → HasPasswords srv
      → HasPasswords (record srv {
        worlds = worlds;
        socks = socks;
        conns = conns;
        closing = closing;
        lockdown = lockdown;
        sent = sent;
      })
  kept_apart srv worlds socks conns closing lockdown sent v = record {
    modpw = v.modpw;
    adminpw = v.adminpw;
  }

  -- A property that is kept is kept with them.
  pub and_passwords :
      (P : Server F → Type 0) (A : Client F → Type 0) (D : ℕ → Type 0)
      → Kept P A D
      → Kept (λ srv. P srv × HasPasswords srv) A D
  and_passwords P A D k =
      let same : (srv srv' : Server F)
          → srv'.modpw ≡ srv.modpw
          → srv'.adminpw ≡ srv.adminpw
          → HasPasswords srv
          → HasPasswords srv' =
        λ srv srv' em ea v. record { modpw = em ∙ v.modpw; adminpw = ea ∙ v.adminpw } in
      record {
        rest = λ srv srv' w s em ea v. (k.rest srv srv' w s em ea v.0, same srv srv' em ea v.1);
        disconnect_kept = λ ws srv v. (
          k.disconnect_kept ws srv v.0,
          on_disconnection-Apart HasPasswords kept_apart ws srv v.1,
        );
        accept_kept = λ ws si srv e v. (k.accept_kept ws si srv e v.0, same srv _ refl refl v.1);
        stranger_kept =
            λ ws si srv e v. (k.stranger_kept ws si srv e v.0, same srv _ refl refl v.1);
        kick_kept =
            λ ws srv v. (k.kick_kept ws srv v.0, kick-Apart HasPasswords kept_apart ws srv v.1);
        put_world_kept = λ w srv d v. (k.put_world_kept w srv d v.0, same srv _ refl refl v.1);
        put_player_kept =
            λ ws si cl srv x v. (k.put_player_kept ws si cl srv x v.0, same srv _ refl refl v.1);
        save_kept = λ os junk srv v. (k.save_kept os junk srv v.0, same srv _ refl refl v.1);
        client_of = λ ws si cl srv v there plays. k.client_of ws si cl srv v.0 there plays;
        default_of = λ name w srv v found. k.default_of name w srv v.0 found;
        same_client = k.same_client;
        new_rank = k.new_rank;
        rank_of = k.rank_of;
        lower = k.lower;
        user = k.user;
      }

module _ {F : Type 0} ⦃fl : Float F⦄ (m a : Bytes) where
  pub join_world-HasPasswords :
      (ws : ℕ) (name : Bytes) (srv : Server F)
      → HasPasswords m a srv
      → HasPasswords m a (join_world ws name srv)
  unfolding join_world find_world enter
  join_world-HasPasswords ws name srv v =
      either (HasPasswords m a) (not (is_name name)) _ _
        (close-Apart (HasPasswords m a) (kept_apart m a) ws srv v)
        (maybe (HasPasswords m a) (lookup ws srv.socks) _ _ v (λ si there.
          let Good : World × Server F → Type 0 = λ did. HasPasswords m a did.1 in
          let u : Good (find_world name srv) =
            maybe Good (lookup name srv.worlds) _ _
              (record { modpw = v.modpw; adminpw = v.adminpw }) (λ w found. v) in
          record { modpw = u.modpw; adminpw = u.adminpw }))
