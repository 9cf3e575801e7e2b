-- ===== src/Server/Names.antt =====
-- The names of the worlds that the server has, which become directories.
pub mod Messages
use owop_server_for_heroku_g.Base.{
  ℕ, ◌≡◌, refl, ap, sym, subst, ◌∙◌, ◌≤◌, ◌-◌, ◌+◌, ◌%◌, Bool, true, false, not, ◌&&◌, ◌||◌, Option,
  none, some, List, [], ◌∷◌, ◌++◌, ◌==◌, if◌then◌else◌, ltb, leb, arith, All, Bool-cases, either,
  maybe, inl, inr, length, take, length-take, min,
}
use owop_server_for_heroku_g.Base.Words.{Bytes, codes}
use owop_server_for_heroku_g.Base.Eq.{Eq, nat_eq, bytes_eq, eq_bytes, eq_bytes_iff}
use owop_server_for_heroku_g.Base.Assoc.{lookup, assign, erase, insert}
use owop_server_for_heroku_g.Limiter.{Float}
use owop_server_for_heroku_g.Database.Handles.{Os}
use owop_server_for_heroku_g.Net.{closed}
use owop_server_for_heroku_g.World.{World, Pinfo}
use owop_server_for_heroku_g.World.Edit.{Did}
use owop_server_for_heroku_g.Client.{Client}
use owop_server_for_heroku_g.Server.{Server, SocketInfo, send, put_world}
use owop_server_for_heroku_g.Server.Close.{
  leave, close_world, uncount, leave_world, is_lock_holder, on_disconnection, close, kick,
}
use owop_server_for_heroku_g.Server.Gone.{worlds-released, worlds-uncount}
use owop_server_for_heroku_g.Server.Files.{save_worlds}
use owop_server_for_heroku_g.Server.Kept.{Kept}
use owop_server_for_heroku_g.Database.Storage.{Disk}
use owop_server_for_heroku_g.Server.Join.{is_name, find_world, enter, join_world}
use owop_server_for_heroku_g.Server.Message.{
  OpCode, text_code, binary_code, on_world, on_rank, on_move, on_protect, on_paste, on_pixel,
  on_binary, on_line, on_text, on_stranger, on_client, on_message,
}

-- One to 24 characters, each of them a..z, 0..9, '_' or '.'.
pub record IsWorldName (name : Bytes) : Type 0 where
  pub plain : is_name name ≡ true
  pub short : length name ≤ 24
  pub filled : 1 ≤ length name

abbrev AllNamed : List (Bytes × World) → Type 0
AllNamed = All λ kw. IsWorldName kw.0

assign-AllNamed :
    (k : Bytes) (w : World) (m : List (Bytes × World)) → AllNamed m → AllNamed (assign k w m)
unfolding assign
assign-AllNamed k w [] h = h
assign-AllNamed k w ((j, v) ∷ m) (hj, h) = elim (Bool-cases (eq_bytes j k)) [
  | inl same ↦ rw (same, assign) (subst IsWorldName ((eq_bytes_iff j k).0 same) hj, h)
  | inr other ↦ rw (other, assign) (hj, assign-AllNamed k w m h)
]

erase-AllNamed : (k : Bytes) (m : List (Bytes × World)) → AllNamed m → AllNamed (erase k m)
unfolding erase
erase-AllNamed k [] h = h
erase-AllNamed k ((j, v) ∷ m) (hj, h) = elim (Bool-cases (eq_bytes j k)) [
  | inl same ↦ rw (same, erase) (erase-AllNamed k m h)
  | inr other ↦ rw (other, erase) (hj, erase-AllNamed k m h)
]

save_worlds-AllNamed :
    (os : Os) (junk : Bytes) (m : List (Bytes × World)) (disk : Disk)
    → AllNamed m
    → AllNamed (save_worlds os junk m disk).0
unfolding save_worlds
save_worlds-AllNamed os junk [] disk v = v
save_worlds-AllNamed os junk ((name, w) ∷ m) disk (n, v) = (n, save_worlds-AllNamed os junk m _ v)

module _ {F : Type 0} where
  -- Every world of the server has a valid name.
  abbrev pub IsNamed : Server F → Type 0
  IsNamed srv = AllNamed srv.worlds

  leave-IsNamed :
      (ws : ℕ) (si : SocketInfo F) (cl : Client F) (srv : Server F)
      → IsNamed srv
      → IsNamed (leave ws si cl srv)
  unfolding leave
  leave-IsNamed ws si cl srv v =
      either IsNamed (not cl.handledelete) _ _ v
        (maybe IsNamed (lookup cl.wrld srv.worlds) _ _ v (λ w e. assign-AllNamed _ _ srv.worlds v))

  close_world-IsNamed :
      (name : Bytes) (srv : Server F) → IsNamed srv → IsNamed (close_world name srv)
  unfolding close_world
  close_world-IsNamed name srv v =
      maybe IsNamed (lookup name srv.worlds) _ _ v
        (λ w e. either IsNamed _ _ _ (erase-AllNamed name srv.worlds v) v)

  leave_world-IsNamed :
      (ws : ℕ) (si : SocketInfo F) (srv : Server F) → IsNamed srv → IsNamed (leave_world ws si srv)
  unfolding leave_world
  leave_world-IsNamed ws si srv v =
      maybe IsNamed si.player _ _ v
        (λ cl e. close_world-IsNamed cl.wrld _ (leave-IsNamed ws si cl srv v))

  on_disconnection-IsNamed :
      (ws : ℕ) (srv : Server F) → IsNamed srv → IsNamed (on_disconnection ws srv)
  unfolding on_disconnection
  on_disconnection-IsNamed ws srv v = maybe IsNamed (lookup ws srv.socks) _ _ v (λ si e.
      subst AllNamed
        (sym (
          worlds-released (is_lock_holder si srv) _ ∙ worlds-uncount si.ip (leave_world ws si srv)))
        (leave_world-IsNamed ws si srv v))

  close-IsNamed : (ws : ℕ) (srv : Server F) → IsNamed srv → IsNamed (close ws srv)
  unfolding close
  close-IsNamed ws srv v = on_disconnection-IsNamed ws (send (closed ws ∷ []) srv) v

  kick-IsNamed : (ws : ℕ) (srv : Server F) → IsNamed srv → IsNamed (kick ws srv)
  unfolding kick
  kick-IsNamed ws srv v = maybe IsNamed (lookup ws srv.socks) _ _ v (λ si e.
      maybe IsNamed si.player _ _ v (λ cl e'.
        either IsNamed cl.handledelete _ _ (close-IsNamed ws _ (leave-IsNamed ws si cl srv v)) v))

  pub IsNamed-kept : Kept IsNamed (λ cl. Unit {0}) (λ n. Unit {0})
  IsNamed-kept = record {
    rest = λ srv srv' w s m a v. subst AllNamed (sym w) v;
    disconnect_kept = on_disconnection-IsNamed;
    accept_kept = λ ws si srv none_yet v. v;
    stranger_kept = λ ws si srv none_yet v. v;
    kick_kept = kick-IsNamed;
    put_world_kept = λ w srv d v. assign-AllNamed w.name w srv.worlds v;
    put_player_kept = λ ws si cl srv a v. v;
    save_kept = λ os junk srv v. save_worlds-AllNamed os junk srv.worlds srv.disk v;
    client_of = λ ws si cl srv v there plays. tt;
    default_of = λ name w srv v found. tt;
    same_client = λ cl cl' r h a. tt;
    new_rank = λ cl cl' h d a. tt;
    rank_of = λ cl a. tt;
    lower = λ m n h d. tt;
    user = tt;
  }
