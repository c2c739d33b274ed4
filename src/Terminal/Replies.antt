-- ===== src/Terminal/Replies.antt =====
-- The replies that the terminal writes to an application's queries: `RgbReplyText`,
-- `OscColorReply`, `OscPaletteReply`, `ResolveKittyColorQuery`, `XTGetTCapReply` and
-- `LookupGhosttyXTGetTCap` of terminal.cpp.
pub mod Capabilities
pub mod Colours
pub mod Answers
use fish_term.Prelude.{
  is_white, ℕ, zero, suc, ◌+◌, ◌-◌, ◌*◌, ◌/◌, ◌%◌, Bool, true, false, ◌&&◌, ◌||◌, not, List, [],
  ◌∷◌, ◌++◌, Option, none, some, get_elem?, length, ltb, leb, ◌==◌, if◌then◌else◌, Bytes, codes,
  eqb_bytes, decimal, is_digit, read_decimal, hex_byte,
}
use fish_term.Theme.{Theme}

-- `RgbReplyText`: the red, green and blue of a colour, two small hexadecimal digits each.
unfoldable pub rgb_reply_text : ℕ → Bytes
rgb_reply_text argb =
    codes "rgb:"
    ++ (hex_byte false (argb / 65536 % 256)
        ++ (b'/' ∷ (hex_byte false (argb / 256 % 256) ++ (b'/' ∷ hex_byte false (argb % 256)))))

-- The end of a reply: BEL, or ESC and a backslash.
abbrev pub terminator : Bool → Bytes
terminator use_bel = if use_bel then 7 ∷ [] else 27 ∷ b'\\' ∷ []

-- `OscColorReply`. The codes of its callers are not negative.
unfoldable pub osc_color_reply : ℕ → ℕ → Bool → Bytes
unfolding rgb_reply_text
osc_color_reply code argb use_bel =
    27 ∷ b']' ∷ (decimal code ++ (b';' ∷ (rgb_reply_text argb ++ terminator use_bel)))

-- `OscPaletteReply`
unfoldable pub osc_palette_reply : ℕ → ℕ → Bool → Bytes
unfolding rgb_reply_text
osc_palette_reply index argb use_bel =
    27 ∷ codes "]4;" ++ (decimal index ++ (b';' ∷ (rgb_reply_text argb ++ terminator use_bel)))

-- `std::strtol(text, &parseEnd, 10)`: the number without its sign, whether it is negative, and what
-- is left behind it; `none` where there is no number and `parseEnd` is the text.
unfoldable pub digits_of : Bool → Bytes → Option (Bool × ℕ × Bytes)
digits_of negative [] = none
digits_of negative (b ∷ bs) =
    let (n, rest) = read_decimal 0 (b ∷ bs) in if is_digit b then some (negative, n, rest) else none

unfoldable pub strtol : Bytes → Option (Bool × ℕ × Bytes)
unfolding digits_of
strtol [] = none
strtol (b ∷ bs) =
    let rest = strtol bs in
    if is_white b
    then rest
    else if b == b'-'
    then digits_of true bs
    else if b == b'+'
    then digits_of false bs
    else digits_of false (b ∷ bs)

-- `*parseEnd == '\0'`: the end of the text, or a zero byte in it.
abbrev pub at_end : Bytes → Bool
at_end [] = true
at_end (b ∷ bs) = b == 0

abbrev pub palette_color : Theme → ℕ → ℕ
palette_color theme index = elim (get_elem? theme.palette index) [
  | some color ↦ color
  | none ↦ theme.foreground
]

-- The key of `ResolveKittyColorQuery` as a number of the palette.
unfoldable pub palette_index : Bytes → Option ℕ
unfolding strtol
palette_index key = elim (strtol key) [
  | none ↦ none
  | some (negative, n, rest) ↦
      if at_end rest && not (negative && not (n == 0)) && ltb n 256 then some n else none
]

-- `ResolveKittyColorQuery`: the value, or `none` where it returns false.
unfoldable pub resolve_kitty_color_query : Bytes → Theme → Option Bytes
unfolding rgb_reply_text palette_index
resolve_kitty_color_query key theme =
    if eqb_bytes key (codes "foreground")
    then some (rgb_reply_text theme.foreground)
    else if eqb_bytes key (codes "background")
    then some (rgb_reply_text theme.background)
    else if eqb_bytes key (codes "cursor")
    then some (rgb_reply_text theme.cursor_color)
    else elim (palette_index key) [
      | some n ↦ some (rgb_reply_text (palette_color theme n))
      | none ↦ none
    ]

-- The hexadecimal digits of a value, in capitals.
unfoldable pub hex_text : Bytes → Bytes
hex_text [] = []
hex_text (b ∷ bs) = hex_byte true b ++ hex_text bs

-- `XTGetTCapReply`
unfoldable pub xt_get_t_cap_reply : Bytes → Bytes → Bool → Bytes
unfolding hex_text
xt_get_t_cap_reply encoded_name value has_value =
    27 ∷ codes "P1+r"
    ++ (encoded_name ++ ((if has_value then b'=' ∷ hex_text value else []) ++ (27 ∷ b'\\' ∷ [])))
