-- ===== src/Tests/HostTests.antt =====
-- Runs of the keys and of the input method's text of napi_init.cpp.
use fish_term.Prelude.{ℕ, ◌≡◌, refl, true, false, List, [], ◌∷◌, none, some, codes, arith}
use fish_term.Utf8.{utf8, encode}
use fish_term.Host.Keys.{linux, digit, key_tab, Modifiers, build_key_sequence}
use fish_term.Host.Keys.Agree.{build_key_sequence-platform_key}
use fish_term.Host.Keys.Shape.{IsSequence, build_key_sequence-IsSequence}
use fish_term.Host.Utf16.{utf8_to_utf16, utf16_to_utf8}
use fish_term.Host.Utf16.RoundTrip.{utf16, utf16_to_utf8-utf8_to_utf16}

abbrev plain : Modifiers
plain = record { ctrl = false; alt = false; shift = false }

run_ctrl_c : build_key_sequence (linux 46) (record plain { ctrl = true }) false ≡ some (3 ∷ [])
unfolding build_key_sequence
run_ctrl_c = refl

run_alt_shift_1 :
    build_key_sequence (digit 1) (record plain { alt = true; shift = true }) false
    ≡ some (27 ∷ b'!' ∷ [])
unfolding build_key_sequence
run_alt_shift_1 = refl

-- Shift and CapsLock cancel out.
run_capitals : build_key_sequence (linux 30) (record plain { shift = true }) true ≡ some (b'a' ∷ [])
unfolding build_key_sequence
run_capitals = refl

run_shift_key : build_key_sequence (linux 42) plain false ≡ none
unfolding build_key_sequence
run_shift_key = refl

build_key_sequence-platform_key_example :
    build_key_sequence (linux 11) (record plain { shift = true }) false
    ≡ build_key_sequence (digit 0) (record plain { shift = true }) false
build_key_sequence-platform_key_example =
    build_key_sequence-platform_key 11 (digit 0) (record plain { shift = true }) false refl

build_key_sequence-IsSequence_example : IsSequence (27 ∷ codes "[Z")
unfolding build_key_sequence
build_key_sequence-IsSequence_example =
    build_key_sequence-IsSequence key_tab (record plain { shift = true }) false (27 ∷ codes "[Z")
      refl

-- An ASCII letter, the euro sign and an emoji.
abbrev message : List ℕ
message = b'5' ∷ 0x20AC ∷ 0x1F600 ∷ []

run_utf8_to_utf16 : utf8_to_utf16 (encode message) ≡ b'5' ∷ 0x20AC ∷ 0xD83D ∷ 0xDE00 ∷ []
unfolding utf8_to_utf16 encode utf8
run_utf8_to_utf16 = refl

-- A byte that starts no code point, and one that is cut off.
run_replacement : utf8_to_utf16 (0x80 ∷ b'x' ∷ 0xE2 ∷ []) ≡ 0xFFFD ∷ b'x' ∷ 0xFFFD ∷ []
unfolding utf8_to_utf16
run_replacement = refl

utf16_to_utf8-utf8_to_utf16_example :
    (utf8_to_utf16 (encode message) ≡ utf16 message)
    × (utf16_to_utf8 (utf8_to_utf16 (encode message)) ≡ encode message)
utf16_to_utf8-utf8_to_utf16_example = utf16_to_utf8-utf8_to_utf16 message (ground arith)
