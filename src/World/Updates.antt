-- ===== src/World/Updates.antt =====
-- `World::send_updates` of world.cpp, which the timer calls: one message with what happened to the
-- clients and the pixels.
pub mod Reader
pub mod Message
pub mod Pending
use owop_server_for_heroku_g.Base.{
  ℕ, zero, suc, ◌+◌, ◌*◌, ◌/◌, ◌%◌, ◌^◌, Bool, true, false, ◌||◌, not, List, [], ◌∷◌, ◌++◌, ltb,
  leb, if◌then◌else◌, map, take, drop, length, min,
}
use owop_server_for_heroku_g.Base.Words.{Bytes, le16, le32}
use owop_server_for_heroku_g.Net.{Out, binary, prepared}
use owop_server_for_heroku_g.World.{World, Pixupd, Pinfo}

abbrev pub world_max_player_updates : ℕ
world_max_player_updates = 128

abbrev pub world_max_player_left_updates : ℕ
world_max_player_left_updates = 255

abbrev pub world_max_pixel_updates : ℕ
world_max_pixel_updates = 4096

-- What is sent of a client: its id and its `pinfo_t`, as they lie in memory.
pub record Seen : Type 0 where
  pub id : ℕ
  pub pos : Pinfo

unfoldable pub seen_bytes : Seen → Bytes
seen_bytes c =
    le32 c.id ++ (le32 c.pos.x ++ (le32 c.pos.y ++ (c.pos.r ∷ c.pos.g ∷ c.pos.b ∷ c.pos.tool ∷ [])))

unfoldable pub pixel_bytes : Pixupd → Bytes
pixel_bytes p = le32 p.x ++ (le32 p.y ++ (p.r ∷ p.g ∷ p.b ∷ []))

-- The rounds of a loop that writes at most `max` entries: the bytes written, how many they are, and
-- the entries left.
pub record Written (A : Type 0) : Type 0 where
  pub bytes : Bytes
  pub count : ℕ
  pub left : List A

pub write_some : {A : Type 0} → (A → Bytes) → ℕ → List A → Written A
write_some f max [] = record { bytes = []; count = 0; left = [] }
write_some f zero (a ∷ xs) = record { bytes = []; count = 0; left = a ∷ xs }
write_some f (suc max) (a ∷ xs) =
    let rest = write_some f max xs in
    record { bytes = f a ++ rest.bytes; count = rest.count + 1; left = rest.left }

abbrev pub is_empty {ℓ} : {A : Type ℓ} → List A → Bool
is_empty [] = true
is_empty (a ∷ xs) = false

-- The message; `seen` gives what is known of a client. UPDATE is 1.
unfoldable pub update_message : (ℕ → Seen) → World → Bytes
unfolding write_some
update_message seen w =
    let players = write_some (λ ws. seen_bytes (seen ws)) world_max_player_updates w.plupdates in
    let pixels = write_some pixel_bytes world_max_pixel_updates w.pxupdates in
    let left = write_some (λ (id : ℕ). le32 id) world_max_player_left_updates w.plleft in
    let n =
      if leb world_max_pixel_updates (length w.pxupdates)
      then world_max_pixel_updates
      else length w.pxupdates in
    let m =
      if leb world_max_player_left_updates (length w.plleft)
      then world_max_player_left_updates
      else length w.plleft in
    1 ∷ (players.count ∷ (players.bytes ++ (le16 n ++ (pixels.bytes ++ (m ∷ left.bytes)))))

-- What is left pending. All pixels are dropped; players and departures that did not fit stay, and then
-- the timer is started again.
unfoldable pub after_updates : (ℕ → Seen) → World → World
unfolding write_some
after_updates seen w =
    let players = write_some (λ ws. seen_bytes (seen ws)) world_max_player_updates w.plupdates in
    let left = write_some (λ (id : ℕ). le32 id) world_max_player_left_updates w.plleft in
    record w {
      plupdates = players.left;
      pxupdates = [];
      plleft = left.left;
      upd_active = not (is_empty players.left) || not (is_empty left.left);
    }

unfoldable pub send_updates : (ℕ → Seen) → World → World × List Out
send_updates seen w = (after_updates seen w, prepared binary (update_message seen w) w.clients)
