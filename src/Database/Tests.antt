-- ===== src/Database/Tests.antt =====
-- Runs of the database.
use owop_server_for_heroku_g.Base.{◌≡◌, refl, true, List, [], ◌∷◌, ◌&&◌, ◌==◌, if◌then◌else◌, arith}
use owop_server_for_heroku_g.Base.Words.{Bytes, codes}
use owop_server_for_heroku_g.Chunk.{background}
use owop_server_for_heroku_g.Chunk.Pixels.{length-background}
use owop_server_for_heroku_g.Base.Eq.{eq_bytes}
use owop_server_for_heroku_g.Database.{
  Database, database, get_prop, set_prop, get_chunk_protection, set_chunk_protection, pack, save,
}
use owop_server_for_heroku_g.Base.Assoc.{contains}
use owop_server_for_heroku_g.Database.Storage.{has_dir}
use owop_server_for_heroku_g.Database.Saved.Marks.{get_chunk_protection-saved}
use owop_server_for_heroku_g.Database.Saved.Lines.{get_prop-saved}
use owop_server_for_heroku_g.Database.PropMap.RoundTrip.{IsText}
use owop_server_for_heroku_g.Database.Storage.{Disk}
use owop_server_for_heroku_g.Database.Region.{empty_region, region_set}
use owop_server_for_heroku_g.Database.Region.Entries.{IsRegion, IsRegion-empty}
use owop_server_for_heroku_g.Database.Region.Laws.{region_set-IsRegion}
use owop_server_for_heroku_g.Database.Region.Picture.{
  Saving, Shows, set_all, draw_all, blank, set_all-refines,
}
use owop_server_for_heroku_g.Database.Handles.{Os}

abbrev white : Bytes
white = background 0xFFFFFF

abbrev black : Bytes
black = background 0

abbrev two : List Saving
two = record { x = 33; y = 4; arr = white } ∷ record { x = 1; y = 4; arr = black } ∷ []

set_all-refines_example : Shows (set_all two empty_region) (draw_all two blank)
set_all-refines_example =
    set_all-refines two (length-background 0xFFFFFF, (length-background 0, tt))

region_set-IsRegion_example : IsRegion (region_set empty_region 33 4 white).0
region_set-IsRegion_example =
    region_set-IsRegion empty_region IsRegion-empty 33 4 white (length-background 0xFFFFFF)

abbrev os : Os
os = record { mkdir = λ d. true; opens = λ p. true }

abbrev disk : Disk
disk = record { dirs = []; files = [] }

abbrev fresh : Database
fresh = database (codes "chunkdata/main/") disk

-- A world with one protected chunk, in a directory that is there.
abbrev guarded : Database
guarded = record {
  dir = 109 ∷ 47 ∷ [];
  created_dir = true;
  handles = [];
  nonexistant = [];
  world_props = (110 ∷ [], 50 ∷ []) ∷ [];
  ranked_chunks = pack 0xFFFF_FFFF 2 ∷ [];
  changed_props_or_protects = true;
}

abbrev with_dir : Disk
with_dir = record { dirs = (109 ∷ 47 ∷ []) ∷ []; files = [] }

with_dir_there : has_dir guarded.dir with_dir ≡ true
unfolding has_dir contains eq_bytes
with_dir_there = refl

get_chunk_protection-saved_example :
    get_chunk_protection
      (database guarded.dir (save os (set_chunk_protection guarded 3 0xFFFF_FFFE true) with_dir).1)
      3
      0xFFFF_FFFE
    ≡ (if 3 == 3 && 0xFFFF_FFFE == 0xFFFF_FFFE
        then true
        else get_chunk_protection guarded 3 0xFFFF_FFFE)
get_chunk_protection-saved_example =
    get_chunk_protection-saved os guarded with_dir 3 0xFFFF_FFFE 3 0xFFFF_FFFE true with_dir_there
      refl (omega arith, tt) (omega arith) (omega arith) (omega arith)

guarded-IsText : IsText guarded.world_props
unfolding IsText
guarded-IsText =
    (record { word = (refl, tt); key_line = (refl, tt); value_line = (refl, tt) }, tt, tt)

get_prop-saved_example :
    get_prop
      (database guarded.dir (save os (set_prop guarded (109 ∷ []) (49 ∷ 32 ∷ [])) with_dir).1)
      (110 ∷ [])
      []
    ≡ (if eq_bytes (109 ∷ []) (110 ∷ []) then 49 ∷ 32 ∷ [] else get_prop guarded (110 ∷ []) [])
get_prop-saved_example =
    get_prop-saved os guarded with_dir (109 ∷ []) (49 ∷ 32 ∷ []) (110 ∷ []) [] with_dir_there refl
      guarded-IsText
      (record { word = (refl, tt); key_line = (refl, tt); value_line = (refl, (refl, tt)) })
