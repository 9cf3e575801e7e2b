-- ===== src/World/Updates/Message.antt =====
-- The message of World::send_updates as a whole, and what stays pending after it.
use owop_server_for_heroku_g.Base.{
  ℕ, ◌≡◌, refl, ap, sym, ◌∙◌, ◌+◌, ◌*◌, ◌/◌, ◌%◌, some, List, [], ◌∷◌, ◌++◌, if◌then◌else◌, map,
  take, length, min, leb, arith, All, length-append, append-nil,
}
use owop_server_for_heroku_g.Base.Words.{Bytes, le16, le32}
use owop_server_for_heroku_g.World.{World, Pixupd}
use owop_server_for_heroku_g.World.Updates.{
  Seen, seen_bytes, pixel_bytes, write_some, update_message,
}
use owop_server_for_heroku_g.World.Updates.Reader.{
  IsWord, IsSeen, IsPixel, read_update, read_seen, read_pixel, read_id, read_some, read_left,
  read_pixels, write_some-count, length-write_some, read_some-write_some, read_seen-seen_bytes,
  read_pixel-pixel_bytes, read_id-le32,
}

All-of : {A : Type 0} {P Q : A → Type 0} → ((a : A) → P a → Q a) → (l : List A) → All P l → All Q l
All-of f [] h = tt
All-of f (a ∷ xs) (ha, h) = (f a ha, All-of f xs h)

map_same : {A : Type 0} (xs : List A) → map (λ a. a) xs ≡ xs
map_same [] = refl
map_same (x ∷ xs) = ap (λ l. x ∷ l) (map_same xs)

clip : (max n : ℕ) → (if leb max n then max else n) ≡ min max n
clip max n = ground arith

abbrev IsPending : (ℕ → Seen) → World → Type 0
IsPending seen w =
    All (λ ws. IsSeen (seen ws)) w.plupdates × All IsPixel w.pxupdates × All IsWord w.plleft

read_left-message :
    (players : List Seen) (pixels : List Pixupd) (ids : List ℕ) (m : ℕ)
    → All IsWord ids
    → m ≡ min 255 (length ids)
    → read_left players pixels (m ∷ (write_some (λ (id : ℕ). le32 id) 255 ids).bytes)
      ≡ some (record { players = players; pixels = pixels; left = take 255 ids })
unfolding read_left
read_left-message players pixels ids m h e =
    let f = λ (id : ℕ). le32 id in
    let w = write_some f 255 ids in
    let count : m ≡ w.count = e ∙ sym (write_some-count f 255 ids) in
    let reads = All-of (λ id hid bs. read_id-le32 id bs hid) ids h in
    let back : read_some read_id m w.bytes ≡ record { items = take 255 ids; rest = [] } =
      ap (λ n. read_some read_id n w.bytes) count
      ∙ ap (read_some read_id w.count) (sym (append-nil w.bytes))
      ∙ read_some-write_some f (λ id. id) read_id 255 ids [] reads
      ∙ ap (λ l. record { items = l; rest = [] }) (map_same (take 255 ids)) in
    rw (back, back, read_left) refl

read_pixels-message :
    (players : List Seen) (px : List Pixupd) (n : ℕ) (rest : Bytes)
    → All IsPixel px
    → n ≡ min 4096 (length px)
    → read_pixels players (le16 n ++ ((write_some pixel_bytes 4096 px).bytes ++ rest))
      ≡ read_left players (take 4096 px) rest
unfolding read_pixels
read_pixels-message players px n rest h e =
    let w = write_some pixel_bytes 4096 px in
    let count : n % 256 + n / 256 % 256 * 256 ≡ w.count =
      omega (arith, e, write_some-count pixel_bytes 4096 px) in
    let reads = All-of (λ p hp bs. read_pixel-pixel_bytes p bs hp) px h in
    let back = read_some-write_some pixel_bytes (λ p. p) read_pixel 4096 px rest reads in
    rw (count, back, map_same (take 4096 px)) refl

-- The UPDATE message, read by a reader that knows only its layout, gives back what was pending: the
-- identifiers and positions of the first 128 players, the first 4096 pixels and the first 255 players
-- who left, each in order, and nothing follows them. The coordinates and identifiers are 32 bits wide.
pub read_update-update_message :
    (seen : ℕ → Seen) (w : World)
    → IsPending seen w
    → read_update (update_message seen w)
      ≡ some (record {
        players = map seen (take 128 w.plupdates);
        pixels = take 4096 w.pxupdates;
        left = take 255 w.plleft;
      })
unfolding read_update update_message
read_update-update_message seen w (hp, hx, hl) =
    let f = λ (ws : ℕ). seen_bytes (seen ws) in
    let reads = All-of (λ ws h bs. read_seen-seen_bytes (seen ws) bs h) w.plupdates hp in
    let m = if leb 255 (length w.plleft) then 255 else length w.plleft in
    let n = if leb 4096 (length w.pxupdates) then 4096 else length w.pxupdates in
    let left = m ∷ (write_some (λ (id : ℕ). le32 id) 255 w.plleft).bytes in
    let pixels = le16 n ++ ((write_some pixel_bytes 4096 w.pxupdates).bytes ++ left) in
    let back = read_some-write_some f seen read_seen 128 w.plupdates pixels reads in
    rw (back, read_update)
      (read_pixels-message (map seen (take 128 w.plupdates)) w.pxupdates n left hx
          (clip 4096 (length w.pxupdates))
        ∙ read_left-message (map seen (take 128 w.plupdates)) (take 4096 w.pxupdates) w.plleft m hl
            (clip 255 (length w.plleft)))

-- The message has 5 bytes, 16 for each player in it, 11 for each pixel and 4 for each player who left;
-- it holds at most 128 players, 4096 pixels and 255 departures.
pub length-update_message :
    (seen : ℕ → Seen) (w : World)
    → length (update_message seen w)
      ≡ 5
        + 16 * min 128 (length w.plupdates)
        + 11 * min 4096 (length w.pxupdates)
        + 4 * min 255 (length w.plleft)
unfolding update_message
length-update_message seen w =
    let f = λ (ws : ℕ). seen_bytes (seen ws) in
    let g = λ (id : ℕ). le32 id in
    let a = write_some f 128 w.plupdates in
    let b = write_some pixel_bytes 4096 w.pxupdates in
    let c = write_some g 255 w.plleft in
    let m = if leb 255 (length w.plleft) then 255 else length w.plleft in
    let n = if leb 4096 (length w.pxupdates) then 4096 else length w.pxupdates in
    omega (
      arith,
      length-append a.bytes (le16 n ++ (b.bytes ++ m ∷ c.bytes)),
      length-append b.bytes (m ∷ c.bytes),
      length-write_some f 16 128 w.plupdates (λ ws. unfold seen_bytes in refl),
      length-write_some pixel_bytes 11 4096 w.pxupdates (λ p. unfold pixel_bytes in refl),
      length-write_some g 4 255 w.plleft (λ id. refl),
      write_some-count f 128 w.plupdates,
      write_some-count pixel_bytes 4096 w.pxupdates,
      write_some-count g 255 w.plleft,
    )
