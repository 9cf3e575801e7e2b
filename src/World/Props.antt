-- ===== src/World/Props.antt =====
-- The properties of a world in world.cpp: its constructor, `reload`, `getProp`, `setProp`, `is_pass`.
pub mod Stoul
pub mod Laws
use owop_server_for_heroku_g.Base.{
  ℕ, ◌+◌, ◌*◌, ◌/◌, ◌%◌, ◌^◌, Bool, true, false, Option, none, some, List, [], ◌∷◌, ◌++◌, ltb,
  if◌then◌else◌, min,
}
use owop_server_for_heroku_g.Base.Words.{Bytes, codes}
use owop_server_for_heroku_g.Base.Eq.{bytes_eq, eq_bytes}
use owop_server_for_heroku_g.Database.{database}
use owop_server_for_heroku_g.Database
use owop_server_for_heroku_g.Database.Storage.{Disk}
use owop_server_for_heroku_g.Net.{Out, text, prepared}
use owop_server_for_heroku_g.World.{World}
use Stoul.{Parsed, value, invalid_argument, out_of_range, stoul}

-- Every client of the world is sent the text.
unfoldable pub broadcast : Bytes → World → List Out
broadcast msg w = prepared text msg w.clients

unfoldable pub get_prop : World → Bytes → Bytes → Bytes
get_prop w key defval = Database.get_prop w.db key defval

unfoldable pub set_prop : World → Bytes → Bytes → World
set_prop w key v = record w { db = Database.set_prop w.db key v }

-- The two bytes at the ends of a 24-bit colour change places.
abbrev pub swap_bgclr : ℕ → ℕ
swap_bgclr c = c % 2 ^ 8 * 2 ^ 16 + c / 2 ^ 8 % 2 ^ 8 * 2 ^ 8 + c / 2 ^ 16 % 2 ^ 8

-- What the handlers of `reload` send.
unfoldable pub reload_failed : Parsed → World → List Out
reload_failed (value v) w = []
reload_failed invalid_argument w =
    broadcast (codes "DEVException while reloading world properties. (std::invalid_argument)") w
reload_failed out_of_range w =
    broadcast (codes "DEVException while reloading world properties. (std::out_of_range)") w

-- `World::reload`. A value that cannot be read ends it, with what came before in effect.
unfoldable pub reload_bgclr : World → World × List Out
reload_bgclr w = elim (stoul 16 (get_prop w (codes "bgcolor") (codes "FFFFFF"))) [
  | value v ↦ (record w { bgclr = swap_bgclr (v % 2 ^ 32) }, [])
  | invalid_argument ↦ (w, reload_failed invalid_argument w)
  | out_of_range ↦ (w, reload_failed out_of_range w)
]

unfoldable pub reload_paintrate : World → World × List Out
reload_paintrate w = elim (stoul 10 (get_prop w (codes "paintrate") (codes "32"))) [
  | value v ↦
      let r = v % 2 ^ 32 in
      reload_bgclr (record w { paintrate = if ltb 0xFFFF r then 0xFFFF else r })
  | invalid_argument ↦ (w, reload_failed invalid_argument w)
  | out_of_range ↦ (w, reload_failed out_of_range w)
]

unfoldable pub reload : World → World × List Out
reload w = reload_paintrate (record w { pass = get_prop w (codes "password") [] })

-- The constructor. Client::USER is 1. Nobody is there to be told of a failure.
unfoldable pub world : Bytes → Bytes → Disk → World
world path name disk =
    (reload (record {
      bgclr = 0xFFFFFF;
      pids = 0;
      paintrate = 32;
      default_rank = 1;
      upd_active = false;
      db = database (path ++ (name ++ codes "/")) disk;
      pass = [];
      clients = [];
      chunks = [];
      pxupdates = [];
      plupdates = [];
      plleft = [];
      name = name;
    })).0

unfoldable pub is_pass : World → Bytes → Bool
is_pass w p = eq_bytes p w.pass
