-- ===== src/World/Props/Laws.antt =====
-- What World::reload makes of the properties.
use owop_server_for_heroku_g.Base.{
  ℕ, ◌≡◌, refl, ap, ◌∙◌, ◌+◌, ◌*◌, ◌/◌, ◌%◌, ◌^◌, ◌<◌, false, ◌||◌, some, [], ◌∷◌, ◌++◌,
  if◌then◌else◌, leb, ltb, ◌==◌, arith,
}
use owop_server_for_heroku_g.Base.Words.{Bytes, codes}
use owop_server_for_heroku_g.World.{World}
use owop_server_for_heroku_g.World.Props.{
  get_prop, reload, reload_paintrate, reload_bgclr, swap_bgclr,
}
use owop_server_for_heroku_g.World.Props.Stoul.{
  value, digit, digit_of, digits, skip_space, skip_prefix, magnitude, signed, stoul,
}

abbrev pub hex_digit : ℕ → ℕ
hex_digit d = if ltb d 10 then 48 + d else 55 + d

-- Two digits, as in the default FFFFFF.
abbrev pub hex_byte : ℕ → Bytes
hex_byte b = hex_digit (b / 16) ∷ hex_digit (b % 16) ∷ []

digit_of-hex_digit : (d : ℕ) → d < 16 → digit_of 16 (hex_digit d) ≡ some d
unfolding digit_of digit
digit_of-hex_digit d h = ground arith

skip_space-hex_digit :
    (d : ℕ) (bs : Bytes) → d < 16 → skip_space (hex_digit d ∷ bs) ≡ hex_digit d ∷ bs
unfolding skip_space
skip_space-hex_digit d bs h = ground arith

skip_prefix-hex_digit :
    (d e f : ℕ) (bs : Bytes)
    → d < 16
    → e < 16
    → f < 16
    → skip_prefix 16 (hex_digit d ∷ hex_digit e ∷ hex_digit f ∷ bs)
      ≡ hex_digit d ∷ hex_digit e ∷ hex_digit f ∷ bs
unfolding skip_prefix
skip_prefix-hex_digit d e f bs hd he hf =
    let no_prefix : (hex_digit e == 120 || hex_digit e == 88) ≡ false = ground arith in
    rw (digit_of-hex_digit f hf, no_prefix, skip_prefix) (ground arith)

not_sign : (d : ℕ) → d < 16 → ((hex_digit d == 45) ≡ false) × ((hex_digit d == 43) ≡ false)
not_sign d h = (ground arith, ground arith)

digits-hex_digit :
    (acc d : ℕ) (bs : Bytes)
    → d < 16
    → digits 16 acc (hex_digit d ∷ bs) ≡ digits 16 (acc * 16 + d) bs
unfolding digits
digits-hex_digit acc d bs h = rw (digit_of-hex_digit d h, digits) refl

-- Six digits are read back to the number they spell.
stoul-hex_byte :
    (r g b : ℕ)
    → r < 256
    → g < 256
    → b < 256
    → stoul 16 (hex_byte r ++ (hex_byte g ++ hex_byte b)) ≡ value (r * 2 ^ 16 + g * 2 ^ 8 + b)
unfolding stoul signed magnitude
stoul-hex_byte r g b hr hg hb =
    let d1 : r / 16 < 16 = omega arith in
    let d2 : r % 16 < 16 = omega arith in
    let d3 : g / 16 < 16 = omega arith in
    let d4 : g % 16 < 16 = omega arith in
    let d5 : b / 16 < 16 = omega arith in
    let d6 : b % 16 < 16 = omega arith in
    let n : digits 16 (r / 16) (hex_digit (r % 16) ∷ (hex_byte g ++ hex_byte b))
        ≡ r * 2 ^ 16 + g * 2 ^ 8 + b =
      digits-hex_digit (r / 16) (r % 16) (hex_byte g ++ hex_byte b) d2
      ∙ digits-hex_digit (r / 16 * 16 + r % 16) (g / 16) _ d3
      ∙ digits-hex_digit _ (g % 16) (hex_byte b) d4
      ∙ digits-hex_digit _ (b / 16) _ d5
      ∙ digits-hex_digit _ (b % 16) [] d6
      ∙ unfold digits in (omega arith) in
    let small : leb (2 ^ 64) (r * 2 ^ 16 + g * 2 ^ 8 + b) ≡ false = ground arith in
    rw
      (
        skip_space-hex_digit (r / 16) (hex_digit (r % 16) ∷ (hex_byte g ++ hex_byte b)) d1,
        (not_sign (r / 16) d1).0,
        (not_sign (r / 16) d1).1,
        skip_prefix-hex_digit (r / 16) (r % 16) (g / 16) (hex_digit (g % 16) ∷ hex_byte b) d1 d2 d3,
        digit_of-hex_digit (r / 16) d1,
        n,
        small,
        stoul,
        signed,
        magnitude,
      )
      refl

reload_paintrate-value :
    (w : World) (v : ℕ)
    → stoul 10 (get_prop w (codes "paintrate") (codes "32")) ≡ value v
    → reload_paintrate w
      ≡ reload_bgclr
          (record w { paintrate = if ltb 0xFFFF (v % 2 ^ 32) then 0xFFFF else v % 2 ^ 32 })
unfolding reload_paintrate
reload_paintrate-value w v h = rw (h, reload_paintrate) refl

reload_bgclr-value :
    (w : World) (v : ℕ)
    → stoul 16 (get_prop w (codes "bgcolor") (codes "FFFFFF")) ≡ value v
    → reload_bgclr w ≡ (record w { bgclr = swap_bgclr (v % 2 ^ 32) }, [])
unfolding reload_bgclr
reload_bgclr-value w v h = rw (h, reload_bgclr) refl

-- When the property `paintrate` is a number and `bgcolor` spells red, green and blue as two digits
-- each, as in the default FFFFFF, `reload` sends nothing, takes the password from its property,
-- limits the paint rate to 65535 once it is cut to 32 bits, and stores the colour with red in its
-- lowest byte.
pub reload-values :
    (w : World) (v r g b : ℕ)
    → r < 256
    → g < 256
    → b < 256
    → stoul 10 (get_prop w (codes "paintrate") (codes "32")) ≡ value v
    → get_prop w (codes "bgcolor") (codes "FFFFFF") ≡ hex_byte r ++ (hex_byte g ++ hex_byte b)
    → reload w ≡ (
      record w {
        pass = get_prop w (codes "password") [];
        paintrate = if ltb 0xFFFF (v % 2 ^ 32) then 0xFFFF else v % 2 ^ 32;
        bgclr = r + g * 2 ^ 8 + b * 2 ^ 16;
      },
      [],
    )
unfolding reload get_prop
reload-values w v r g b hr hg hb hv hc =
    let w1 = record w { pass = get_prop w (codes "password") [] } in
    let w2 = record w1 { paintrate = if ltb 0xFFFF (v % 2 ^ 32) then 0xFFFF else v % 2 ^ 32 } in
    let color = r * 2 ^ 16 + g * 2 ^ 8 + b in
    let swapped : swap_bgclr (color % 2 ^ 32) ≡ r + g * 2 ^ 8 + b * 2 ^ 16 = omega arith in
    reload_paintrate-value w1 v hv
    ∙ reload_bgclr-value w2 color (ap (stoul 16) hc ∙ stoul-hex_byte r g b hr hg hb)
    ∙ ap (λ c. (record w2 { bgclr = c }, [])) swapped
