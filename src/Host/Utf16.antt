-- ===== src/Host/Utf16.antt =====
-- `Utf8ToUtf16` and `Utf16ToUtf8` of napi_init.cpp, between the input method's UTF-16 and the
-- terminal's UTF-8. Bytes and 16-bit units are numbers. A mask of the low bits is a remainder, and
-- `|` of parts that share no bit is a sum.
pub mod RoundTrip
use Prim.Native.Nat.{bit_or}
use fish_term.Prelude.{
  ℕ, zero, suc, ◌+◌, ◌-◌, ◌*◌, ◌/◌, ◌%◌, Bool, true, false, ◌&&◌, List, [], ◌∷◌, ◌++◌, Option, none,
  some, length, drop, get_elem?, leb, ltb, ◌==◌, if◌then◌else◌,
}
use fish_term.Utf8.{byte, continuation}

-- `text[i]` where the code has checked the index.
abbrev pub at : List ℕ → ℕ → ℕ
at text i = elim (get_elem? text i) [ some b ↦ b | none ↦ 0 ]

-- One round of the loop of `Utf8ToUtf16`: the code point at the front, and the rest of the text. A
-- byte that starts no code point, or one that is cut off, is U+FFFD.
unfoldable pub take_code_point : List ℕ → Option (ℕ × List ℕ)
take_code_point [] = none
take_code_point (c0 ∷ text) =
    if ltb c0 0x80
    then some (c0, text)
    else if c0 / 32 == 6 && ltb 0 (length text)
    then some (c0 % 32 * 64 + at text 0 % 64, drop 1 text)
    else if c0 / 16 == 14 && ltb 1 (length text)
    then some (c0 % 16 * 4096 + at text 0 % 64 * 64 + at text 1 % 64, drop 2 text)
    else if c0 / 8 == 30 && ltb 2 (length text)
    then some (
      c0 % 8 * 262144 + at text 0 % 64 * 4096 + at text 1 % 64 * 64 + at text 2 % 64,
      drop 3 text,
    )
    else some (0xFFFD, text)

-- The units that the loop pushes for a code point.
unfoldable pub units : ℕ → List ℕ
units cp =
    if leb cp 0xFFFF
    then cp ∷ []
    else (0xD800 + (cp - 0x10000) / 1024 % 1024) ∷ (0xDC00 + (cp - 0x10000) % 1024) ∷ []

-- The loop, for at most `fuel` rounds.
unfoldable pub utf16_rounds : ℕ → List ℕ → List ℕ
utf16_rounds zero text = []
utf16_rounds (suc fuel) text = elim (take_code_point text) [
  | none ↦ []
  | some (cp, rest) ↦ units cp ++ utf16_rounds fuel rest
]

-- `Utf8ToUtf16`. Each round takes a byte or more.
unfoldable pub utf8_to_utf16 : List ℕ → List ℕ
unfolding take_code_point units utf16_rounds
utf8_to_utf16 text = utf16_rounds (length text) text

-- The bytes that `Utf16ToUtf8` pushes for a code point.
unfoldable pub push_utf8 : ℕ → List ℕ
push_utf8 cp =
    if leb cp 0x7F
    then byte cp ∷ []
    else if leb cp 0x7FF
    then byte (bit_or 0xC0 (cp / 64 % 32)) ∷ continuation cp ∷ []
    else if leb cp 0xFFFF
    then byte (bit_or 0xE0 (cp / 4096 % 16)) ∷ continuation (cp / 64) ∷ continuation cp ∷ []
    else byte (bit_or 0xF0 (cp / 262144 % 8))
      ∷ continuation (cp / 4096)
      ∷ continuation (cp / 64)
      ∷ continuation cp
      ∷ []

abbrev pub is_high : ℕ → Bool
is_high u = leb 0xD800 u && leb u 0xDBFF

abbrev pub is_low : ℕ → Bool
is_low u = leb 0xDC00 u && leb u 0xDFFF

-- `Utf16ToUtf8`
unfoldable pub utf16_to_utf8 : List ℕ → List ℕ
unfolding push_utf8
utf16_to_utf8 [] = []
utf16_to_utf8 (u ∷ []) = push_utf8 u
utf16_to_utf8 (u ∷ low ∷ rest) = elim (is_high u && is_low low) [
  | true ↦ push_utf8 (0x10000 + ((u - 0xD800) * 1024 + (low - 0xDC00))) ++ utf16_to_utf8 rest
  | false ↦ push_utf8 u ++ utf16_to_utf8 (low ∷ rest)
]
