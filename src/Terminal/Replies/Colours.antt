-- ===== src/Terminal/Replies/Colours.antt =====
-- An application's reader of the colour replies, and that it reads the colour that was asked for.
use fish_term.Prelude.{
  ℕ, ◌/◌, ◌%◌, ◌≡◌, refl, Bool, true, false, ◌&&◌, [], ◌∷◌, ◌++◌, Option, none, some, ◌==◌,
  if◌then◌else◌, Bytes, read_decimal, read_decimal-decimal, hex_byte, read_hex_byte,
  read_hex_byte_digits, arith,
}
use fish_term.Terminal.Replies.{rgb_reply_text, terminator, osc_color_reply, osc_palette_reply}

-- Red, green and blue.
pub record Rgb : Type 0 where
  pub red : ℕ
  pub green : ℕ
  pub blue : ℕ

join_rgb : Option ℕ → Option ℕ → Option ℕ → Option Rgb
join_rgb (some r) (some g) (some b) = some (record { red = r; green = g; blue = b })
join_rgb r g b = none

-- `rgb:rr/gg/bb` from the front of a text.
unfoldable pub read_rgb : Bytes → Option Rgb × Bytes
unfolding join_rgb
read_rgb (a ∷ b ∷ c ∷ d ∷ r ∷ r' ∷ s ∷ g ∷ g' ∷ s' ∷ k ∷ k' ∷ rest) =
    if a == b'r' && b == b'g' && c == b'b' && d == b':' && s == b'/' && s' == b'/'
    then (join_rgb (read_hex_byte r r') (read_hex_byte g g') (read_hex_byte k k'), rest)
    else (none, [])
read_rgb bs = (none, [])

-- The channels of a colour 0xAARRGGBB.
abbrev pub channels : ℕ → Rgb
channels argb = record { red = argb / 65536 % 256; green = argb / 256 % 256; blue = argb % 256 }

read_rgb-rgb_reply_text :
    (argb : ℕ) (rest : Bytes)
    → read_rgb (rgb_reply_text argb ++ rest) ≡ (some (channels argb), rest)
unfolding read_rgb rgb_reply_text hex_byte
read_rgb-rgb_reply_text argb rest = simp (
  read_hex_byte_digits false (argb / 65536 % 256) (omega arith),
  read_hex_byte_digits false (argb / 256 % 256) (omega arith),
  read_hex_byte_digits false (argb % 256) (omega arith),
)

-- A terminator and nothing behind it.
is_terminator : Bytes → Bool
is_terminator (b ∷ []) = b == 7
is_terminator (b ∷ c ∷ []) = b == 27 && c == b'\\'
is_terminator bs = false

finish_osc : ℕ → Option Rgb × Bytes → Option (ℕ × Rgb)
unfolding is_terminator
finish_osc code (none, rest) = none
finish_osc code (some rgb, rest) = if is_terminator rest then some (code, rgb) else none

read_osc_colour : ℕ × Bytes → Option (ℕ × Rgb)
unfolding finish_osc
read_osc_colour (code, []) = none
read_osc_colour (code, b ∷ rest) = if b == b';' then finish_osc code (read_rgb rest) else none

-- ESC, `]`, a number, `;` and a colour.
unfoldable pub read_osc : Bytes → Option (ℕ × Rgb)
unfolding read_osc_colour
read_osc (a ∷ b ∷ rest) =
    if a == 27 && b == b']' then read_osc_colour (read_decimal 0 rest) else none
read_osc bs = none

-- ESC, `]4;`, a number, `;` and a colour.
unfoldable pub read_osc_palette : Bytes → Option (ℕ × Rgb)
unfolding read_osc_colour
read_osc_palette (a ∷ b ∷ c ∷ d ∷ rest) =
    if a == 27 && b == b']' && c == b'4' && d == b';'
    then read_osc_colour (read_decimal 0 rest)
    else none
read_osc_palette bs = none

finish :
    (code argb : ℕ) (use_bel : Bool)
    → read_osc_colour (read_decimal code (b';' ∷ (rgb_reply_text argb ++ terminator use_bel)))
      ≡ some (code, channels argb)
unfolding read_osc_colour
finish code argb true = rw (read_rgb-rgb_reply_text argb (7 ∷ [])) refl
finish code argb false = rw (read_rgb-rgb_reply_text argb (27 ∷ b'\\' ∷ [])) refl

-- The replies to a colour query and to a palette query read, with either terminator, as the number
-- and the red, green and blue of the colour.
pub read_osc-reply :
    (code argb : ℕ) (use_bel : Bool)
    → (read_osc (osc_color_reply code argb use_bel) ≡ some (code, channels argb))
      × (read_osc_palette (osc_palette_reply code argb use_bel) ≡ some (code, channels argb))
unfolding read_osc read_osc_palette osc_color_reply osc_palette_reply
read_osc-reply code argb use_bel = (
  rw (read_decimal-decimal code (b';' ∷ (rgb_reply_text argb ++ terminator use_bel)))
      (finish code argb use_bel),
  rw (read_decimal-decimal code (b';' ∷ (rgb_reply_text argb ++ terminator use_bel)))
      (finish code argb use_bel),
)
