-- ===== src/Server/Events/Ranks.antt =====
-- Invariants over all sequences of events: the ranks, the names of the worlds, and who has left.
use owop_server_for_heroku_g.Base.{
  ℕ, ◌≡◌, refl, sym, ap, ◌∙◌, ◌≤◌, false, List, [], ◌∷◌, All, length,
}
use owop_server_for_heroku_g.Base.Words.{Bytes}
use owop_server_for_heroku_g.Base.Eq.{eq_bytes}
use owop_server_for_heroku_g.Limiter.{Float}
use owop_server_for_heroku_g.Args.{split_args}
use owop_server_for_heroku_g.Database.Handles.{Os}
use owop_server_for_heroku_g.Client.Rank
use owop_server_for_heroku_g.Server.{Server}
use owop_server_for_heroku_g.Server.Join.{join_world}
use owop_server_for_heroku_g.Server.Kept.{Kept}
use owop_server_for_heroku_g.Server.Kept.Messages.{command_of}
use owop_server_for_heroku_g.Server.Passwords.{HasPasswords, and_passwords, join_world-HasPasswords}
use owop_server_for_heroku_g.Server.Events.{Event, after, after_all}
use owop_server_for_heroku_g.Server.Events.Join.{join_world-Everyone}
use owop_server_for_heroku_g.Server.Events.Kept.{AllowedIn, after-Kept}
use owop_server_for_heroku_g.Commands.Speech.{is_adminpw, is_modpw}
use owop_server_for_heroku_g.Commands.Kept.Rights.{Opens}
use owop_server_for_heroku_g.Commands.Ranks.{AtMost, RanksAtMost, ranks_kept}

module _ {F : Type 0} where
  -- No word that an event may bring as a command is one of the two passwords.
  abbrev pub Unguessed : Server F → Event → Type 0
  Unguessed srv (Event.received ws oc msg now) =
      All (λ w. (eq_bytes w srv.modpw ≡ false) × (eq_bytes w srv.adminpw ≡ false))
        (split_args (command_of msg))
  Unguessed srv e = Unit

  closed_words :
      (r : ℕ) (srv now : Server F) (args : List Bytes)
      → HasPasswords srv.modpw srv.adminpw now
      → All (λ w. (eq_bytes w srv.modpw ≡ false) × (eq_bytes w srv.adminpw ≡ false)) args
      → All (Opens (λ n. n ≤ r) now) args
  unfolding is_modpw is_adminpw
  closed_words r srv now [] v h = tt
  closed_words r srv now (w ∷ args) v ((m, a), h) = (
    (
      λ e. let c = sym e ∙ ap (eq_bytes w) v.modpw ∙ m in cc,
      λ e. let c = sym e ∙ ap (eq_bytes w) v.adminpw ∙ a in cc,
    ),
    closed_words r srv now args v h,
  )

module _ {F : Type 0} ⦃fl : Float F⦄ (os : Os) (junk : Bytes) where
  abbrev Within : ℕ → Server F → Server F → Type 0
  Within r srv s = RanksAtMost r s × HasPasswords srv.modpw srv.adminpw s

  within_kept :
      (r : ℕ) (srv : Server F) → Rank.user ≤ r → Kept (Within r srv) (AtMost r) (λ n. n ≤ r)
  within_kept r srv h =
      and_passwords srv.modpw srv.adminpw (RanksAtMost r) (AtMost r) (λ n. n ≤ r) (ranks_kept r h)

  join_world-Within :
      (r : ℕ) (srv : Server F)
      → Rank.user ≤ r
      → (ws : ℕ) (name : Bytes) (s : Server F) → length name ≤ 24
      → 1 ≤ length name
      → Within r srv s
      → Within r srv (join_world ws name s)
  join_world-Within r srv h ws name s short filled v = (
    join_world-Everyone (AtMost r) (λ n. n ≤ r) (ranks_kept r h) (λ cl live d. d) ws name s v.0,
    join_world-HasPasswords srv.modpw srv.adminpw ws name s v.1,
  )

  allowed :
      (r : ℕ) (srv s : Server F) (h : Rank.user ≤ r) (e : Event)
      → Unguessed srv e
      → Within r srv s
      → AllowedIn
          (Within r srv)
          (AtMost r)
          (λ n. n ≤ r)
          (within_kept r srv h)
          os
          junk
          (join_world-Within r srv h)
          e
          s
  allowed r srv s h (Event.received ws oc msg now) u v =
      closed_words r srv s (split_args (command_of msg)) v.1 u
  allowed r srv s h (Event.connected ws address now) u v = tt
  allowed r srv s h (Event.disconnected ws) u v = tt
  allowed r srv s h (Event.world_timer name) u v = tt
  allowed r srv s h Event.save_timer u v = tt
  allowed r srv s h Event.round_over u v = tt

  after_all-Within :
      (r : ℕ) (srv s : Server F) (es : List Event)
      → Rank.user ≤ r
      → All (Unguessed srv) es
      → Within r srv s
      → Within r srv (after_all os junk es s)
  unfolding after_all
  after_all-Within r srv s [] h u v = v
  after_all-Within r srv s (e ∷ es) h (u, us) v =
      after_all-Within r srv (after os junk e s) es h us (
        after-Kept (Within r srv) (AtMost r) (λ n. n ≤ r) (within_kept r srv h) os junk
          (join_world-Within r srv h) e s (allowed r srv s h e u v) v)

  -- Whatever happens to a server, however long it runs: as long as no client sends the password of
  -- the moderators or of the administrators as a word of a command, no client ever has a rank above r,
  -- and no world gives one, if that is so at the start and r is at least the rank of a user.
  pub after_all-RanksAtMost :
      (r : ℕ) (es : List Event) (srv : Server F)
      → Rank.user ≤ r
      → All (Unguessed srv) es
      → RanksAtMost r srv
      → RanksAtMost r (after_all os junk es srv)
  after_all-RanksAtMost r es srv h u v =
      (after_all-Within r srv srv es h u (v, record { modpw = refl; adminpw = refl })).0
