-- ===== src/Server/Kept/Binary.antt =====
-- What the binary messages of a client keep.
use owop_server_for_heroku_g.Base.{
  ℕ, ◌≡◌, refl, sym, subst, ◌||◌, some, ◌==◌, if◌then◌else◌, ltb, either, maybe, length, get_or,
}
use owop_server_for_heroku_g.Base.Words.{Bytes}
use owop_server_for_heroku_g.Base.Eq.{nat_eq, bytes_eq}
use owop_server_for_heroku_g.Base.Assoc.{lookup}
use owop_server_for_heroku_g.Limiter.{Float}
use owop_server_for_heroku_g.Database.Storage.{Disk}
use owop_server_for_heroku_g.Database.Handles.{Os}
use owop_server_for_heroku_g.Chunk.{Rgb}
use owop_server_for_heroku_g.World.{World, Pinfo}
use owop_server_for_heroku_g.World.Cache.{sched_updates}
use owop_server_for_heroku_g.World.Cache.Head.{SameHead, SameHead-refl}
use owop_server_for_heroku_g.World.Clients.{upd_cli}
use owop_server_for_heroku_g.World.Edit.{Did}
use owop_server_for_heroku_g.World.Edit.Head.{
  send_chunk-SameHead, del_chunk-SameHead, paste_chunk-SameHead, put_px-SameHead,
  set_world_protection-SameHead,
}
use owop_server_for_heroku_g.Client.{Client, is_admin, move, put_px, can_edit}
use owop_server_for_heroku_g.Client.Rank
use owop_server_for_heroku_g.Server.{Server, SocketInfo, put_player, put_world}
use owop_server_for_heroku_g.Server.Kept.{Kept, close-Kept, admintell-Kept}
use owop_server_for_heroku_g.Server.Message.{
  int_at, pinfo_at, rgb_at, is_staff, on_world, on_rank, on_move, on_protect, on_paste, on_pixel,
  on_binary,
}

module _ {F : Type 0} ⦃fl : Float F⦄ where
  -- The parts of a client that the property may read.
  pub record SamePlayer (cl cl' : Client F) : Type 0 where
    pub rank : cl'.rank ≡ cl.rank
    pub handledelete : cl'.handledelete ≡ cl.handledelete

  put_px-SamePlayer :
      (os : Os) (junk : Bytes) (cl : Client F) (x y : ℕ) (clr : Rgb) (now : ℕ) (w : World)
      (disk : Disk)
      → SamePlayer cl (put_px os junk cl x y clr now w disk).0
        × SameHead w (put_px os junk cl x y clr now w disk).1.world
  unfolding put_px can_edit
  put_px-SamePlayer os junk cl x y clr now w disk =
      let Same : Client F × Did → Type 0 = λ did. SamePlayer cl did.0 × SameHead w did.1.world in
      let kept : SamePlayer cl (if is_admin cl then cl else (can_edit cl now).0) =
        either (SamePlayer cl) (is_admin cl) _ _ (record { rank = refl; handledelete = refl })
          (record { rank = refl; handledelete = refl }) in
      either Same (is_admin cl || (can_edit cl now).1) _ _
        (
          record { rank = kept.rank; handledelete = kept.handledelete },
          put_px-SameHead os junk x y clr w disk,
        )
        (kept, SameHead-refl w)

module _ {F : Type 0} ⦃fl : Float F⦄ (P : Server F → Type 0) (A : Client F → Type 0)
    (D : ℕ → Type 0) (k : Kept P A D) (os : Os) (junk : Bytes) where
  world-Kept :
      (cl : Client F) (w u : World) (disk : Disk) (srv : Server F)
      → SameHead w u
      → P srv
      → lookup cl.wrld srv.worlds ≡ some w
      → P (put_world u (record srv { disk = disk }))
  world-Kept cl w u disk srv same p found =
      k.put_world_kept u (record srv { disk = disk })
        (subst D (sym same.default_rank) (k.default_of cl.wrld w srv p found))
        (k.rest srv _ refl refl refl refl p)

  pub player-Kept :
      (ws : ℕ) (si : SocketInfo F) (cl cl' : Client F) (srv : Server F)
      → SamePlayer cl cl'
      → A cl
      → P srv
      → P (put_player ws si cl' srv)
  player-Kept ws si cl cl' srv same a p =
      k.put_player_kept ws si cl' srv (k.same_client cl cl' same.rank same.handledelete a) p

  on_world-Kept :
      (cl : Client F) (op : World → Did) (srv : Server F)
      → ((w : World) → SameHead w (op w).world)
      → P srv
      → P (on_world cl op srv)
  unfolding on_world
  on_world-Kept cl op srv same p = maybe P (lookup cl.wrld srv.worlds) _ _ p (λ w found.
      k.rest _ _ refl refl refl refl
        (world-Kept cl w (op w).world (op w).disk srv (same w) p found))

  on_move-Kept :
      (ws : ℕ) (si : SocketInfo F) (cl : Client F) (pos : Pinfo) (srv : Server F)
      → A cl
      → P srv
      → P (on_move ws si cl pos srv)
  unfolding on_move move upd_cli sched_updates
  on_move-Kept ws si cl pos srv a p = maybe P (lookup cl.wrld srv.worlds) _ _ p (λ w found.
      player-Kept ws si cl _ _ (record { rank = refl; handledelete = refl }) a
        (k.put_world_kept (upd_cli cl.ws w) srv (k.default_of cl.wrld w srv p found) p))

  on_protect-Kept :
      (cl : Client F) (msg : Bytes) (srv : Server F) → P srv → P (on_protect os junk cl msg srv)
  unfolding on_protect
  on_protect-Kept cl msg srv p =
      either P (ltb cl.rank Rank.moderator) _ _ (k.rest srv _ refl refl refl refl p)
        (on_world-Kept cl _ srv (λ w. set_world_protection-SameHead os junk _ _ _ w srv.disk) p)

  on_paste-Kept :
      (ws : ℕ) (si : SocketInfo F) (cl : Client F) (msg : Bytes) (srv : Server F)
      → P srv
      → P (on_paste os junk ws si cl msg srv)
  unfolding on_paste
  on_paste-Kept ws si cl msg srv p =
      either P (is_staff cl) _ _
        (on_world-Kept cl _ srv (λ w. paste_chunk-SameHead os junk _ _ _ w srv.disk) p)
        (close-Kept P A D k ws _ (admintell-Kept P A D k _ _ (k.rest srv _ refl refl refl refl p)))

  on_pixel-Kept :
      (ws : ℕ) (si : SocketInfo F) (cl : Client F) (msg : Bytes) (now : ℕ) (srv : Server F)
      → A cl
      → P srv
      → P (on_pixel os junk ws si cl msg now srv)
  unfolding on_pixel
  on_pixel-Kept ws si cl msg now srv a p = maybe P (lookup cl.wrld srv.worlds) _ _ p (λ w found.
      let x = int_at msg 0 in
      let y = int_at msg 4 in
      let did = put_px os junk cl x y (rgb_at msg) now w srv.disk in
      let (same, head) = put_px-SamePlayer os junk cl x y (rgb_at msg) now w srv.disk in
      player-Kept ws si cl did.0 _ same a (world-Kept cl w did.1.world did.1.disk srv head p found))

  pub on_binary-Kept :
      (ws : ℕ) (si : SocketInfo F) (cl : Client F) (msg : Bytes) (now : ℕ) (srv : Server F)
      → A cl
      → P srv
      → P (on_binary os junk ws si cl msg now srv)
  unfolding on_binary on_rank
  on_binary-Kept ws si cl msg now srv a p =
      let n = length msg in
      either P (n == 1) _ _ (either P (ltb cl.rank (get_or msg 0 0)) _ _ (k.kick_kept ws srv p) p) (
        either P (n == 8) _ _
          (on_world-Kept cl _ srv (λ w. send_chunk-SameHead os junk ws _ _ w srv.disk) p)
          (either P (n == 9) _ _
            (on_world-Kept cl _ srv (λ w. del_chunk-SameHead os junk _ _ w srv.disk) p)
            (either P (n == 10) _ _ (on_protect-Kept cl msg srv p) (
              either P (n == 11) _ _ (on_pixel-Kept ws si cl msg now srv a p) (
                either P (n == 12) _ _ (on_move-Kept ws si cl (pinfo_at msg) srv a p)
                  (either P (n == 776) _ _ (on_paste-Kept ws si cl msg srv p) p))))))
