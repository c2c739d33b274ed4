-- ===== src/Tests/Utf8Tests.antt =====
-- The encoder on code points of each length.
use fish_term.Prelude.{ℕ, ◌≡◌, refl, List, [], ◌∷◌, ◌++◌, some, arith}
use fish_term.Utf8.{utf8}
use fish_term.Utf8.RoundTrip.{decode_one, decode_one-utf8}

-- U+20AC, the euro sign.
utf8_euro : utf8 0x20AC ≡ 0xE2 ∷ 0x82 ∷ 0xAC ∷ []
unfolding utf8
utf8_euro = refl

utf8_emoji : utf8 0x1F600 ≡ 0xF0 ∷ 0x9F ∷ 0x98 ∷ 0x80 ∷ []
unfolding utf8
utf8_emoji = refl

decode_one-utf8_example : decode_one (utf8 0x1F600 ++ b'x' ∷ []) ≡ some (0x1F600, b'x' ∷ [])
decode_one-utf8_example = decode_one-utf8 0x1F600 (b'x' ∷ []) (omega arith)

abbrev price : List ℕ
price = b'5' ∷ 0x20AC ∷ []
