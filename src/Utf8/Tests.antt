-- ===== src/Utf8/Tests.antt =====
-- Runs of `getUTF8strlen`.
use owop_server_for_heroku_g.Base.{◌≡◌, refl, List, [], ◌∷◌, ◌++◌, arith, All}
use owop_server_for_heroku_g.Base.Words.{codes}
use owop_server_for_heroku_g.Utf8.{size_max, get_utf8_strlen}
use owop_server_for_heroku_g.Utf8.Units.{
  Sequence, IsSequence, encode, get_utf8_strlen-encode, get_utf8_strlen_invalid,
  get_utf8_strlen_unchecked_end,
}

-- "a", a euro sign and an emoji.
abbrev mixed : List Sequence
mixed =
    record { lead = 0x61; rest = [] }
    ∷ record { lead = 0xE2; rest = 0x82 ∷ 0xAC ∷ [] }
    ∷ record { lead = 0xF0; rest = 0x9F ∷ 0x98 ∷ 0x80 ∷ [] }
    ∷ []

abbrev overlong : Sequence
overlong = record { lead = 0xF8; rest = 0x80 ∷ 0x80 ∷ 0x80 ∷ 0x80 ∷ [] }

mixed-IsSequence : All (IsSequence 3) mixed
mixed-IsSequence = (
  record { leads = refl; continues = tt; short = omega arith },
  (
    record { leads = refl; continues = (refl, (refl, tt)); short = omega arith },
    (record { leads = refl; continues = (refl, (refl, (refl, tt))); short = omega arith }, tt),
  ),
)

overlong-IsSequence : IsSequence 4 overlong
overlong-IsSequence = record {
  leads = refl;
  continues = (refl, (refl, (refl, (refl, tt))));
  short = omega arith;
}

ascii : get_utf8_strlen (codes "hello") ≡ 5
unfolding get_utf8_strlen codes
ascii = refl

get_utf8_strlen-encode_example : get_utf8_strlen (encode mixed) ≡ 4
get_utf8_strlen-encode_example = get_utf8_strlen-encode mixed mixed-IsSequence

get_utf8_strlen_invalid_example :
    get_utf8_strlen (encode mixed ++ overlong.lead ∷ (overlong.rest ++ 0x61 ∷ [])) ≡ size_max
get_utf8_strlen_invalid_example =
    get_utf8_strlen_invalid mixed overlong 0x61 [] mixed-IsSequence overlong-IsSequence refl

get_utf8_strlen_unchecked_end_example :
    get_utf8_strlen (encode mixed ++ overlong.lead ∷ overlong.rest) ≡ 5
get_utf8_strlen_unchecked_end_example =
    get_utf8_strlen_unchecked_end mixed overlong mixed-IsSequence overlong-IsSequence refl
