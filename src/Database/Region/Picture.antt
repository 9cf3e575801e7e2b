-- ===== src/Database/Region/Picture.antt =====
-- A region file stands for a picture: a function from the places in the region to what was saved there.
use owop_server_for_heroku_g.Base.{
  ℕ, ◌%◌, ◌≡◌, ◌≢◌, ◌⊎◌, refl, ap, ◌∙◌, true, false, ◌&&◌, Option, none, some, List, [], ◌∷◌, arith,
  ◌==◌, if◌then◌else◌, length, Bool-cases, inl, inr, All,
}
use owop_server_for_heroku_g.Base.Words.{Bytes}
use owop_server_for_heroku_g.Database.Region.{
  Reading, empty_region, lookup_pos, chunk_pos, slice, region_read, region_get, region_set,
}
use owop_server_for_heroku_g.Database.Region.Entries.{IsRegion, IsRegion-empty, entry-empty}
use owop_server_for_heroku_g.Database.Region.Laws.{
  slot, region_get-loaded, region_set-IsRegion, region_get-region_set_self,
  region_get-region_set_ne,
}

abbrev pub Picture : Type 0
Picture = ℕ → ℕ → Option Bytes

abbrev pub blank : Picture
blank x y = none

-- A picture forgets where the blocks lie and in which order they were saved.
pub draw : Picture → ℕ → ℕ → Bytes → Picture
draw p x y arr i j = if x % 32 == i % 32 && y % 32 == j % 32 then some arr else p i j

-- What loading a place of the picture into a buffer does.
pub view : Picture → ℕ → ℕ → Bytes → Reading
view p x y buf = elim (p x y) [
  | none ↦ record { arr = buf; found = false; good = true }
  | some arr ↦ record { arr = arr; found = true; good = true }
]

-- One chunk that is saved.
pub record Saving : Type 0 where
  pub x : ℕ
  pub y : ℕ
  pub arr : Bytes

pub draw_all : List Saving → Picture → Picture
draw_all [] p = p
draw_all (w ∷ ws) p = draw_all ws (draw p w.x w.y w.arr)

pub set_all : List Saving → Bytes → Bytes
set_all [] s = s
set_all (w ∷ ws) s = set_all ws (region_set s w.x w.y w.arr).0

abbrev pub Shows : Bytes → Picture → Type 0
Shows s p = (x y : ℕ) (buf : Bytes) → length buf ≡ 768 → region_get s x y buf ≡ view p x y buf

empty-Shows : Shows empty_region blank
unfolding view
empty-Shows x y buf room =
    region_get-loaded empty_region IsRegion-empty x y buf room ∙ rw (entry-empty (slot x y)) refl

elsewhere :
    (x y i j : ℕ)
    → (x % 32 == i % 32 && y % 32 == j % 32) ≡ false
    → (x % 32 ≢ i % 32) ⊎ (y % 32 ≢ j % 32)
elsewhere x y i j h = elim (Bool-cases (x % 32 == i % 32)) [
  | inl same ↦ inr (λ e. ground arith)
  | inr other ↦ inl (λ e. ground arith)
]

same_place :
    (s : Bytes) (x y i j : ℕ) (buf : Bytes)
    → x % 32 ≡ i % 32
    → y % 32 ≡ j % 32
    → region_get s i j buf ≡ region_get s x y buf
unfolding region_get
same_place s x y i j buf ex ey =
    let e : lookup_pos i j ≡ lookup_pos x y = omega arith in
    ap (λ pos. region_read s (chunk_pos (slice s pos 3)) (length (slice s pos 3) == 3) buf) e

-- Saving a chunk draws it.
draw-Shows :
    (s : Bytes) (p : Picture) (x y : ℕ) (arr : Bytes)
    → IsRegion s
    → length arr ≡ 768
    → Shows s p
    → Shows (region_set s x y arr).0 (draw p x y arr)
unfolding view draw
draw-Shows s p x y arr r sized shows i j buf room =
    elim (Bool-cases (x % 32 == i % 32 && y % 32 == j % 32)) [
      | inl here ↦
          rw (here, view, draw)
            (same_place (region_set s x y arr).0 x y i j buf (ground arith) (ground arith)
              ∙ region_get-region_set_self s x y arr buf r sized room)
      | inr away ↦
          rw (away, view, draw)
            (region_get-region_set_ne s x y i j arr buf r sized room (elsewhere x y i j away)
              ∙ shows i j buf room)
    ]

set_all-Shows :
    (ws : List Saving) (s : Bytes) (p : Picture)
    → All (λ w. length w.arr ≡ 768) ws
    → IsRegion s
    → Shows s p
    → Shows (set_all ws s) (draw_all ws p)
unfolding set_all draw_all
set_all-Shows [] s p sized r shows = shows
set_all-Shows (w ∷ ws) s p (sized, rest) r shows =
    set_all-Shows ws (region_set s w.x w.y w.arr).0 (draw p w.x w.y w.arr) rest
      (region_set-IsRegion s r w.x w.y w.arr sized) (draw-Shows s p w.x w.y w.arr r sized shows)

-- A region file does what a picture does: after any sequence of chunks of 768 bytes saved to a new
-- file, loading any place into a buffer of that size finds what was last saved there, where places
-- count as the same when x & 31 and y & 31 are, and where nothing was saved it finds nothing and
-- leaves the buffer as it is.
pub set_all-refines :
    (ws : List Saving)
    → All (λ w. length w.arr ≡ 768) ws
    → Shows (set_all ws empty_region) (draw_all ws blank)
set_all-refines ws sized = set_all-Shows ws empty_region blank sized IsRegion-empty empty-Shows
