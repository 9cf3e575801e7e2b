-- ===== src/World/Clients.antt =====
-- The clients of a world in world.cpp, by their sockets, and what is pending of them.
use owop_server_for_heroku_g.Base.{ℕ, ◌+◌, ◌%◌, ◌^◌, List, [], ◌∷◌, ltb, ◌==◌, if◌then◌else◌}
use owop_server_for_heroku_g.Base.Eq.{nat_eq}
use owop_server_for_heroku_g.Base.Assoc.{remove}
use owop_server_for_heroku_g.World.{World}
use owop_server_for_heroku_g.World.Cache.{sched_updates}
use owop_server_for_heroku_g.World.Updates.{is_empty}

-- `emplace` on a std::set, which is in ascending order. (The order of pointers is unspecified; here
-- it is that of the sockets.)
unfoldable pub set_emplace : ℕ → List ℕ → List ℕ
set_emplace n [] = n ∷ []
set_emplace n (m ∷ s) =
    let rest = set_emplace n s in if n == m then m ∷ s else if ltb n m then n ∷ m ∷ s else m ∷ rest

set_emplace_all : List ℕ → List ℕ → List ℕ
set_emplace_all [] s = s
set_emplace_all (n ∷ ns) s = set_emplace_all ns (set_emplace n s)

unfoldable pub update_all_clients : World → World
unfolding set_emplace_all
update_all_clients w = record w { plupdates = set_emplace_all w.clients w.plupdates }

-- `++pids` of a `uint32_t`.
unfoldable pub get_id : World → ℕ × World
get_id w = let id = (w.pids + 1) % 2 ^ 32 in (id, record w { pids = id })

-- The end of `World::add_cli`, after the client is told the rules and given its rank.
unfoldable pub add_cli : ℕ → World → World
add_cli ws w = sched_updates (update_all_clients (record w { clients = set_emplace ws w.clients }))

unfoldable pub upd_cli : ℕ → World → World
upd_cli ws w = sched_updates (record w { plupdates = set_emplace ws w.plupdates })

-- `World::rm_cli` of the client with the socket `ws` and the identifier `id`.
unfoldable pub rm_cli : ℕ → ℕ → World → World
rm_cli ws id w =
    let w' = record w {
      plleft = set_emplace id w.plleft;
      clients = remove ws w.clients;
      plupdates = remove ws w.plupdates;
    } in
    if is_empty w'.clients then w' else sched_updates w'

unfoldable pub set_default_rank : ℕ → World → World
set_default_rank r w = record w { default_rank = r }
