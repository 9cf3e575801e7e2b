-- ===== src/Client.antt =====
-- The `Client` class of client.cpp. Each operation returns the new client and what is sent to whom.
-- The idle timer is never started by this code, so that `updated` has no effect.
pub mod Rank
pub mod Rights
mod Tests
use owop_server_for_heroku_g.Base.{
  ℕ, ◌+◌, ◌*◌, ◌%◌, ◌^◌, Bool, true, false, not, ◌&&◌, ◌||◌, List, [], ◌∷◌, ◌++◌, ltb, ◌==◌,
  if◌then◌else◌,
}
use owop_server_for_heroku_g.Base.Words.{Bytes, codes, le16, le32, to_string}
use owop_server_for_heroku_g.Chunk.{Rgb}
use owop_server_for_heroku_g.Limiter.{Float, Bucket, bucket, set_rate, can_spend}
use owop_server_for_heroku_g.Database.Storage.{Disk}
use owop_server_for_heroku_g.Database.Handles.{Os}
use owop_server_for_heroku_g.Net.{Out, text, binary}
use owop_server_for_heroku_g.Net.Tag
use owop_server_for_heroku_g.World.{World, Pinfo}
use owop_server_for_heroku_g.World.Edit.{Did}
use owop_server_for_heroku_g.World.Edit
use owop_server_for_heroku_g.World.Props.{broadcast}
use owop_server_for_heroku_g.World.Clients.{upd_cli}

abbrev pub client_max_warn_level : ℕ
client_max_warn_level = 128

-- A client knows its world by name and its `SocketInfo` by the socket.
pub record Client (F : Type 0) : Type 0 where
  pub nick : Bytes
  pub pixupdlimit : Bucket F
  pub chatlimit : Bucket F
  pub ws : ℕ
  pub wrld : Bytes
  pub penalty : ℕ
  pub handledelete : Bool
  pub rank : ℕ
  pub stealthadmin : Bool
  pub suspicious : Bool
  pub pos : Pinfo
  pub lastclr : Rgb
  pub chathtml : Bool
  pub id : ℕ
  pub mute : Bool

-- (x << 4) + 8 of an `int32_t`: the middle of a pixel.
abbrev pub center : ℕ → ℕ
center x = (x * 16 + 8) % 2 ^ 32

module _ {F : Type 0} where
  abbrev pub is_mod : Client F → Bool
  is_mod cl = cl.rank == Rank.moderator

  abbrev pub is_admin : Client F → Bool
  is_admin cl = cl.rank == Rank.admin

  unfoldable pub tell : Client F → Bytes → List Out
  tell cl msg = text cl.ws msg ∷ []

  -- The three prefixes of the source are empty.
  unfoldable pub get_nick : Client F → Bytes
  get_nick cl = elim cl.nick [ [] ↦ to_string cl.id | c ∷ more ↦ c ∷ more ]

  unfoldable pub chat : Client F → Bytes → World → List Out
  chat cl msg w = if cl.mute then [] else broadcast (get_nick cl ++ (codes ": " ++ msg)) w

  unfoldable pub teleport : Client F → ℕ → ℕ → World → Client F × World × List Out
  teleport cl x y w = (
    record cl { pos = record cl.pos { x = center x; y = center y } },
    upd_cli cl.ws w,
    binary cl.ws (Tag.teleport ∷ (le32 x ++ le32 y)) ∷ [],
  )

  unfoldable pub move : Client F → Pinfo → World → Client F × World
  move cl newpos w = (record cl { pos = newpos }, upd_cli cl.ws w)

  unfoldable pub set_stealth : Bool → Client F → Client F
  set_stealth new_state cl = record cl { stealthadmin = new_state }

  unfoldable pub set_nick : Bytes → Client F → Client F
  set_nick name cl = record cl { nick = name }

  unfoldable pub enable_html_chat : Client F → Client F
  enable_html_chat cl = record cl { chathtml = true }

  -- `Client::warn`: whether the client is to be closed. `penalty` is a `uint16_t`.
  unfoldable pub warn : Client F → Client F × Bool
  warn cl =
      if is_admin cl
      then (cl, false)
      else (let penalty = (cl.penalty + 1) % 2 ^ 16 in
          (record cl { penalty = penalty }, ltb client_max_warn_level penalty))

module _ {F : Type 0} ⦃fl : Float F⦄ where
  -- The constructor. CLIENT_CHAT_RATELIMIT is 34, 44.
  unfoldable pub client : ℕ → ℕ → Bytes → Bool → Client F × List Out
  client id ws wrld suspicious = (
    record {
      nick = [];
      pixupdlimit = bucket 0 1;
      chatlimit = bucket 34 44;
      ws = ws;
      wrld = wrld;
      penalty = 0;
      handledelete = true;
      rank = Rank.user;
      stealthadmin = false;
      suspicious = suspicious;
      pos = record { x = 0; y = 0; r = 0; g = 0; b = 0; tool = 0 };
      lastclr = record { r = 0; g = 0; b = 0 };
      chathtml = false;
      id = id;
      mute = false;
    },
    binary ws (Tag.set_id ∷ le32 id) ∷ [],
  )

  unfoldable pub can_edit : Client F → ℕ → Client F × Bool
  can_edit cl now =
      let (b, granted) = can_spend cl.pixupdlimit now 1 in (record cl { pixupdlimit = b }, granted)

  unfoldable pub can_chat : Client F → ℕ → Client F × Bool
  can_chat cl now =
      let (b, granted) = can_spend cl.chatlimit now 1 in
      if is_admin cl then (cl, true) else (record cl { chatlimit = b }, granted)

  unfoldable pub set_pbucket : Client F → ℕ → ℕ → Client F × List Out
  set_pbucket cl rate per = (
    record cl { pixupdlimit = set_rate cl.pixupdlimit rate per },
    binary cl.ws (Tag.set_pquota ∷ (le16 rate ++ le16 per)) ∷ [],
  )

  -- What the new rank brings, before the client is sent its permissions.
  unfoldable pub grant : Client F → ℕ → Client F × List Out
  grant cl prate =
      if cl.rank == Rank.admin
      then (cl, tell cl (codes "Server: You are now an admin. Do /help for a list of commands."))
      else if cl.rank == Rank.moderator
      then (let (cl', sent) = set_pbucket cl prate 2 in
          (cl', tell cl (codes "Server: You are now a moderator.") ++ sent))
      else if cl.rank == Rank.user
      then set_pbucket cl prate 4
      else set_pbucket cl 0 1

  unfoldable pub promote : Client F → ℕ → ℕ → Client F × List Out
  promote cl newrank prate =
      let (cl', sent) = grant (record cl { rank = newrank }) prate in
      (cl', sent ++ binary cl.ws (Tag.permissions ∷ newrank ∷ []) ∷ [])

  -- The client and what World::put_px did. The distances that the source computes are not used.
  unfoldable pub put_px : Os → Bytes → Client F → ℕ → ℕ → Rgb → ℕ → World → Disk → Client F × Did
  put_px os junk cl x y clr now w disk =
      let (checked, granted) = can_edit cl now in
      let cl' = if is_admin cl then cl else checked in
      if is_admin cl || granted
      then (record cl' { lastclr = clr }, Edit.put_px os junk x y clr w disk)
      else (cl', record { world = w; disk = disk; sent = []; changed = false })
