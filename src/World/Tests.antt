-- ===== src/World/Tests.antt =====
-- Runs of a world with a red pixel in it.
use owop_server_for_heroku_g.World.Steps.Sound.{scheduled}
use owop_server_for_heroku_g.Base.{
  List, zero, suc, ℕ, ◌≡◌, ◌≢◌, ◌↔◌, refl, ◌+◌, ◌*◌, ◌%◌, ◌^◌, true, false, ◌&&◌, some, [], ◌∷◌,
  ◌++◌, arith, ltb, ◌==◌, if◌then◌else◌, map, take,
}
use owop_server_for_heroku_g.Base.Words.{codes, sar}
use owop_server_for_heroku_g.Base.Eq.{bytes_eq, eq_bytes}
use owop_server_for_heroku_g.Base.Assoc.{lookup}
use owop_server_for_heroku_g.Chunk.{Chunk, Rgb, clear}
use owop_server_for_heroku_g.Chunk.Pixels.{clear-IsFull}
use owop_server_for_heroku_g.Database.{Database}
use owop_server_for_heroku_g.Database
use owop_server_for_heroku_g.Database.PropMap.{find_prop}
use owop_server_for_heroku_g.Database.Storage.{Disk}
use owop_server_for_heroku_g.Database.Handles.{Os, key}
use owop_server_for_heroku_g.World.{World}
use owop_server_for_heroku_g.World.Cache.{out_of_world}
use owop_server_for_heroku_g.World.Cache.Limits.{IsInside, out_of_world_lem}
use owop_server_for_heroku_g.World.Edit.{put_px}
use owop_server_for_heroku_g.World.Edit.Laws.{color_in, color_in-put_px, put_px-pending}
use owop_server_for_heroku_g.World.Props.{world, reload, get_prop}
use owop_server_for_heroku_g.World.Props.Stoul.{
  stoul, value, signed, magnitude, skip_space, skip_prefix, digits, digit_of, digit,
}
use owop_server_for_heroku_g.World.Props.Laws.{hex_byte, reload-values}
use owop_server_for_heroku_g.World.Steps.{run, joins, draws, leaves, saves, ticks}
use owop_server_for_heroku_g.World.Steps.Sound.{IsSound}
use owop_server_for_heroku_g.World.Steps.Invariant.{run-world}
use owop_server_for_heroku_g.World.Updates.{Seen, update_message}
use owop_server_for_heroku_g.World.Updates.Reader.{read_update}
use owop_server_for_heroku_g.World.Updates.Message.{read_update-update_message}
use owop_server_for_heroku_g.World.Steps.Rounds.{IsQuiet, told, rounds, rounds-pending}

abbrev os : Os
os = record { mkdir = λ dir. true; opens = λ path. true }

abbrev disk : Disk
disk = record { files = []; dirs = [] }

abbrev red : Rgb
red = record { r = 255; g = 0; b = 0 }

abbrev blank : Chunk
blank = clear (record {
  bgclr = 0xFFFFFF;
  cx = 0;
  cy = 0xFFFF_FFFF;
  pixels = [];
  changed = false;
  ranked = false;
})

abbrev store : Database
store = record {
  dir = codes "chunkdata/main/";
  created_dir = false;
  handles = [];
  nonexistant = [];
  world_props = [];
  ranked_chunks = [];
  changed_props_or_protects = false;
}

-- Two clients, one of them to be announced, a pixel and a departure pending, one chunk in memory.
abbrev busy : World
busy = record {
  bgclr = 0xFFFFFF;
  pids = 3;
  paintrate = 32;
  default_rank = 1;
  upd_active = true;
  db = store;
  pass = [];
  clients = 5 ∷ 7 ∷ [];
  chunks = (key 0 0xFFFF_FFFF, blank) ∷ [];
  pxupdates = record { x = 4; y = 0xFFFF_FFFE; r = 1; g = 2; b = 3 } ∷ [];
  plupdates = 7 ∷ [];
  plleft = 2 ∷ [];
  name = codes "main";
}

abbrev seen : ℕ → Seen
seen ws = record {
  id = ws;
  pos = record { x = 40; y = 0xFFFF_FFF8; r = 0; g = 0; b = 0; tool = 1 };
}

run-world_example :
    IsSound
      (run os []
        (joins 5 ∷ draws 4 0xFFFF_FFFE red ∷ ticks seen ∷ leaves 5 1 ∷ saves ∷ [])
        (world [] (codes "main") disk, disk)).0
run-world_example =
    run-world os [] [] (codes "main") disk
      (joins 5 ∷ draws 4 0xFFFF_FFFE red ∷ ticks seen ∷ leaves 5 1 ∷ saves ∷ [])

near : out_of_world (sar 4 4) (sar 0xFFFF_FFFE 4) ≡ false
near =
    (out_of_world_lem (sar 4 4) (sar 0xFFFF_FFFE 4) (omega arith) (omega arith)).1
      (omega arith, omega arith)

there : lookup (key (sar 4 4) (sar 0xFFFF_FFFE 4)) busy.chunks ≡ some blank
unfolding lookup eq_bytes
there = refl

color_in-put_px_example :
    color_in (put_px os [] 4 0xFFFF_FFFE red busy disk).world 4 0xFFFF_FFFE
    ≡ (if 4 == 4 && 0xFFFF_FFFE == 0xFFFF_FFFE then some red else color_in busy 4 0xFFFF_FFFE)
color_in-put_px_example =
    color_in-put_px os [] 4 0xFFFF_FFFE red busy disk blank near there 4 0xFFFF_FFFE
      (clear-IsFull _) (omega arith) (omega arith) (omega arith) (omega arith)

put_px-pending_example :
    (color_in busy 4 0xFFFF_FFFE ≡ some red
      → put_px os [] 4 0xFFFF_FFFE red busy disk
        ≡ record { world = busy; disk = disk; sent = []; changed = false })
    × (color_in busy 4 0xFFFF_FFFE ≢ some red
        → ((put_px os [] 4 0xFFFF_FFFE red busy disk).world.pxupdates
            ≡ busy.pxupdates ++ record { x = 4; y = 0xFFFF_FFFE; r = 255; g = 0; b = 0 } ∷ [])
          × ((put_px os [] 4 0xFFFF_FFFE red busy disk).world.upd_active ≡ true)
          × ((put_px os [] 4 0xFFFF_FFFE red busy disk).sent ≡ [])
          × ((put_px os [] 4 0xFFFF_FFFE red busy disk).changed ≡ true))
put_px-pending_example = put_px-pending os [] 4 0xFFFF_FFFE red busy disk blank near there

read_update-update_message_example :
    read_update (update_message seen busy)
    ≡ some (record {
      players = map seen (take 128 busy.plupdates);
      pixels = take 4096 busy.pxupdates;
      left = take 255 busy.plleft;
    })
read_update-update_message_example = read_update-update_message seen busy (
  ((omega arith, omega arith, omega arith), tt),
  ((omega arith, omega arith), tt),
  (omega arith, tt),
)

abbrev up_to : ℕ → List ℕ
up_to zero = []
up_to (suc n) = suc n ∷ up_to n

-- More than one message has room for.
abbrev crowded : World
crowded = record busy { plupdates = up_to 200; plleft = up_to 300 }

crowded-scheduled : scheduled crowded ≡ true
unfolding scheduled
crowded-scheduled = refl

rounds-pending_example :
    IsQuiet (rounds 2 seen crowded)
    × (told (λ v. v.plupdates) 128 2 seen crowded ≡ crowded.plupdates)
    × (told (λ v. v.plleft) 255 2 seen crowded ≡ crowded.plleft)
rounds-pending_example =
    rounds-pending 1 seen crowded crowded-scheduled refl (omega arith) (omega arith)

out_of_world_lem_example :
    (out_of_world 0xFFFFF 0xFFF0_0000 ≡ false) ↔ (IsInside 0xFFFFF × IsInside 0xFFF0_0000)
out_of_world_lem_example = out_of_world_lem 0xFFFFF 0xFFF0_0000 (omega arith) (omega arith)

rate : stoul 10 (get_prop busy (codes "paintrate") (codes "32")) ≡ value 32
unfolding stoul signed magnitude skip_space skip_prefix digits digit_of digit get_prop
    Database.get_prop find_prop codes
rate = refl

color :
    get_prop busy (codes "bgcolor") (codes "FFFFFF")
    ≡ hex_byte 255 ++ (hex_byte 255 ++ hex_byte 255)
unfolding get_prop Database.get_prop find_prop codes
color = refl

reload-values_example : reload busy ≡ (
  record busy {
    pass = get_prop busy (codes "password") [];
    paintrate = if ltb 0xFFFF (32 % 2 ^ 32) then 0xFFFF else 32 % 2 ^ 32;
    bgclr = 255 + 255 * 2 ^ 8 + 255 * 2 ^ 16;
  },
  [],
)
reload-values_example =
    reload-values busy 32 255 255 255 (omega arith) (omega arith) (omega arith) rate color
