-- ===== src/Utf8.antt =====
-- `getUTF8strlen` of server.cpp: the length of a message as the browser counts it.
pub mod Units
mod Tests
use owop_server_for_heroku_g.Base.{
  ℕ, ◌+◌, ◌-◌, ◌/◌, ◌^◌, Bool, not, [], ◌∷◌, ltb, ◌==◌, if◌then◌else◌,
}
use owop_server_for_heroku_g.Base.Words.{Bytes}

abbrev pub size_max : ℕ
size_max = 2 ^ 64 - 1

-- (c & 0xC0) == 0x80 for a byte c: its two upper bits are 10.
abbrev pub is_continuation : ℕ → Bool
is_continuation c = c / 64 == 2

-- The loop over the rest of the text, with the variables j and x.
pub utf8_loop : Bytes → ℕ → ℕ → ℕ
utf8_loop [] j x = if x == 4 then j + 1 else j
utf8_loop (c ∷ s) j x =
    let lead = not (is_continuation c) in
    let rest =
      utf8_loop s (if lead then (if x == 4 then j + 2 else j + 1) else j)
        (if lead then 1 else x + 1) in
    if ltb 4 x then size_max else rest

unfoldable pub get_utf8_strlen : Bytes → ℕ
unfolding utf8_loop
get_utf8_strlen s = utf8_loop s 0 1
