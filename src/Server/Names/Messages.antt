-- ===== src/Server/Names/Messages.antt =====
-- The names of the worlds under the handler of messages.
use owop_server_for_heroku_g.Base.{
  ℕ, ◌≤◌, List, Bool-cases, maybe, All-each, Option-cases, inl, inr, length,
}
use owop_server_for_heroku_g.Base.Words.{Bytes}
use owop_server_for_heroku_g.Base.Eq.{nat_eq, bytes_eq}
use owop_server_for_heroku_g.Base.Assoc.{lookup, insert}
use owop_server_for_heroku_g.Limiter.{Float}
use owop_server_for_heroku_g.Database.Handles.{Os}
use owop_server_for_heroku_g.World.{World}
use owop_server_for_heroku_g.Server.{Server}
use owop_server_for_heroku_g.Server.Join.{is_name, find_world, enter, join_world}
use owop_server_for_heroku_g.Server.Message.{OpCode, on_message}
use owop_server_for_heroku_g.Args.{split_args}
use owop_server_for_heroku_g.Server.Kept.Messages.{command_of, on_message-Kept}
use owop_server_for_heroku_g.Server.Names.{
  IsWorldName, AllNamed, IsNamed, assign-AllNamed, close-IsNamed, IsNamed-kept,
}

insert-AllNamed :
    (k : Bytes) (w : World) (m : List (Bytes × World))
    → IsWorldName k
    → AllNamed m
    → AllNamed (insert k w m)
unfolding insert
insert-AllNamed k w m hk h = elim (Option-cases (lookup k m)) [
  | inl new ↦ rw (new, insert) (hk, h)
  | inr (v, old) ↦ rw (old, insert) (assign-AllNamed k w m h)
]

module _ {F : Type 0} ⦃fl : Float F⦄ where
  find_world-IsNamed :
      (name : Bytes) (srv : Server F)
      → IsWorldName name
      → IsNamed srv
      → IsNamed (find_world name srv).1
  unfolding find_world
  find_world-IsNamed name srv hn v = elim (Option-cases (lookup name srv.worlds)) [
    | inl new ↦ rw (new, find_world) (insert-AllNamed name _ srv.worlds hn v)
    | inr (w, old) ↦ rw (old, find_world) v
  ]

  pub join_world-IsNamed :
      (ws : ℕ) (name : Bytes) (srv : Server F)
      → length name ≤ 24
      → 1 ≤ length name
      → IsNamed srv
      → IsNamed (join_world ws name srv)
  unfolding join_world enter
  join_world-IsNamed ws name srv short filled v = elim (Bool-cases (is_name name)) [
    | inl plain ↦
        rw (plain, join_world)
          (maybe IsNamed (lookup ws srv.socks) _ _ v (λ si e.
            assign-AllNamed _ _ (find_world name srv).1.worlds (
              find_world-IsNamed name srv (record { plain = plain; short = short; filled = filled })
                v)))
    | inr strange ↦ rw (strange, join_world) (close-IsNamed ws srv v)
  ]

  -- Whatever message comes from whatever socket, commands included, if every world of the server had a
  -- name of 1 to 24 characters from a..z, 0..9, '_' and '.', every world still has such a name.
  pub on_message-IsNamed :
      (os : Os) (junk : Bytes) (ws : ℕ) (oc : OpCode) (msg : Bytes) (now : ℕ) (srv : Server F)
      → IsNamed srv
      → IsNamed (on_message os junk ws oc msg now srv)
  on_message-IsNamed os junk ws oc msg now srv v =
      on_message-Kept IsNamed (λ cl. Unit {0}) (λ n. Unit {0}) IsNamed-kept os junk ws oc msg now
        srv (λ name short filled. join_world-IsNamed ws name srv short filled v)
        (All-each _ (λ w. (λ e. tt, λ e. tt)) (split_args (command_of msg))) v
