-- ===== src/Server/Stop/Lost.antt =====
-- What is on the disk after the destructor.
use owop_server_for_heroku_g.Base.{ℕ, ◌≡◌, refl, ap, ◌∙◌, some, List, [], ◌∷◌, map, All, maybe}
use owop_server_for_heroku_g.Base.Words.{Bytes}
use owop_server_for_heroku_g.Base.Eq.{nat_eq, bytes_eq}
use owop_server_for_heroku_g.Base.Assoc.{lookup, erase}
use owop_server_for_heroku_g.Database.Storage.{Disk}
use owop_server_for_heroku_g.Database.Handles.{Os}
use owop_server_for_heroku_g.World.{World}
use owop_server_for_heroku_g.Server.{Server, SocketInfo}
use owop_server_for_heroku_g.Server.Apart.{close-Apart}
use owop_server_for_heroku_g.Server.Close.{close, delete_worlds}
use owop_server_for_heroku_g.Server.Files.{writefiles}
use owop_server_for_heroku_g.Server.Kick.{each}
use owop_server_for_heroku_g.Server.Stop.{close_all, destroy}
use owop_server_for_heroku_g.Server.Stop.Leaving.{PlaysIn, Distinct, worlds-each}

module _ {F : Type 0} where
  -- What the destructor leaves on the disk, if these worlds are left after the sockets are closed.
  abbrev left_on_disk : Os → Bytes → List (Bytes × World) → Server F → Disk
  left_on_disk os junk worlds srv =
      (writefiles (record srv {
        worlds = [];
        disk = delete_worlds os junk (map (λ named. named.1) worlds) srv.disk;
      })).disk

  -- What does not depend on the sockets, the worlds and what is sent is as before.
  pub each-Apart :
      (Q : Server F → Type 0)
      → ((ws : ℕ) (srv : Server F) → Q srv → Q (close ws srv))
      → (m : List (ℕ × SocketInfo F)) (srv : Server F) → Q srv
      → Q (each (λ ws si. close ws) m srv)
  unfolding each
  each-Apart Q kept [] srv q = q
  each-Apart Q kept ((ws, seen) ∷ m) srv q =
      each-Apart Q kept m _ (maybe Q (lookup ws srv.socks) _ _ q (λ si there. kept ws srv q))

  left-each :
      (os : Os) (junk : Bytes) (srv : Server F) (worlds : List (Bytes × World))
      → left_on_disk os junk worlds (each (λ ws si. close ws) srv.socks srv)
        ≡ left_on_disk os junk worlds srv
  unfolding writefiles
  left-each os junk srv worlds =
      let Same : Server F → Type 0 =
        λ s. left_on_disk os junk worlds s ≡ left_on_disk os junk worlds srv in
      each-Apart Same (close-Apart Same (λ s worlds' socks conns closing lockdown sent v. v))
        srv.socks srv refl

  -- Where the sockets of a server are those of the clients of one world, each of them once and in the same
  -- order, the destructor leaves on the disk what it would leave if the world had not been there: the
  -- world is not saved. There is at least one, none of their clients has left before, and the world is
  -- found under its own name.
  pub disk-destroy :
      (os : Os) (junk : Bytes) (ws : ℕ) (si : SocketInfo F) (m : List (ℕ × SocketInfo F))
      (name : Bytes) (w : World) (srv : Server F)
      → srv.socks ≡ (ws, si) ∷ m
      → Distinct ((ws, si) ∷ m)
      → All (λ e. PlaysIn name e.1) ((ws, si) ∷ m)
      → w.clients ≡ map (λ e. e.0) ((ws, si) ∷ m)
      → w.name ≡ name
      → lookup name srv.worlds ≡ some w
      → (destroy os junk srv).disk
        ≡ (destroy os junk (record srv { worlds = erase name srv.worlds; socks = [] })).disk
  unfolding destroy close_all each writefiles
  disk-destroy os junk ws si m name w srv here distinct players clients named found =
      ap (λ worlds. left_on_disk os junk worlds (close_all srv))
        (ap (λ l. (each (λ k seen. close k) l srv).worlds) here
          ∙ worlds-each ws si m name w srv here distinct players clients named found)
      ∙ left-each os junk srv (erase name srv.worlds)
