-- ===== src/Theme/Parser.antt =====
-- `ThemeParser` of libghostty_ohos/src/main/cpp/terminal/theme.cpp.
pub mod Colour
use fish_term.Prelude.{
  is_white, ℕ, zero, suc, ◌+◌, ◌-◌, ◌*◌, ◌/◌, ◌%◌, ◌^◌, Bool, true, false, ◌&&◌, ◌||◌, not, List,
  [], ◌∷◌, ◌++◌, Option, none, some, get_elem?, length, set, ltb, leb, ◌==◌, if◌then◌else◌, Bytes,
  codes, eqb_bytes, is_digit, read_decimal, hex_value,
}
use fish_term.Theme.{Theme}

abbrev pub is_blank : ℕ → Bool
is_blank b = b == b' ' || b == 9 || b == 13 || b == 10

-- `str.find_first_not_of(" \t\r\n")`, and the text from there.
unfoldable pub trim_front : Bytes → Bytes
trim_front [] = []
trim_front (b ∷ bs) = elim (is_blank b) [ true ↦ trim_front bs | false ↦ b ∷ bs ]

-- The text up to `str.find_last_not_of(" \t\r\n")`.
unfoldable pub trim_back : Bytes → Bytes
trim_back [] = []
trim_back (b ∷ bs) = elim (trim_back bs) [
  | [] ↦ if is_blank b then [] else b ∷ []
  | c ∷ cs ↦ b ∷ c ∷ cs
]

-- `trim`
unfoldable pub trim_blanks : Bytes → Bytes
unfolding trim_front trim_back
trim_blanks text = trim_back (trim_front text)

unfoldable pub skip_white : Bytes → Bytes
skip_white [] = []
skip_white (b ∷ bs) = elim (is_white b) [ true ↦ skip_white bs | false ↦ b ∷ bs ]

-- Whether a text begins with a minus sign, and what is behind its sign.
unfoldable pub read_sign : Bytes → Bool × Bytes
read_sign [] = (false, [])
read_sign (b ∷ bs) =
    if b == b'-' then (true, bs) else if b == b'+' then (false, bs) else (false, b ∷ bs)

-- The hexadecimal digits at the front of a text, behind the number `n`.
unfoldable pub hex_number : ℕ → Bytes → ℕ
hex_number n [] = n
hex_number n (b ∷ bs) = elim (hex_value b) [ none ↦ n | some d ↦ hex_number (n * 16 + d) bs ]

-- Whether a text begins with a hexadecimal digit.
abbrev pub starts_hex : Bytes → Bool
starts_hex [] = false
starts_hex (b ∷ bs) = elim (hex_value b) [ none ↦ false | some d ↦ true ]

-- `0x` or `0X` in front of a hexadecimal digit is skipped.
unfoldable pub skip_0x : Bytes → Bytes
skip_0x [] = []
skip_0x (a ∷ []) = a ∷ []
skip_0x (a ∷ b ∷ bs) =
    if a == b'0' && (b == b'x' || b == b'X') && starts_hex bs then bs else a ∷ b ∷ bs

-- `std::stoul(s, nullptr, 16)` for an `unsigned long` of 64 bits, `none` where it throws: no digits,
-- or a number that does not fit.
unfoldable pub stoul_16 : Bytes → Option ℕ
unfolding skip_white read_sign skip_0x hex_number
stoul_16 text =
    let (negative, rest) = read_sign (skip_white text) in
    let digits = skip_0x rest in
    let n = hex_number 0 digits in
    if not (starts_hex digits)
    then none
    else if leb (2 ^ 64) n
    then none
    else if negative
    then some ((2 ^ 64 - n) % 2 ^ 64)
    else some n

-- The text without a `#` in front.
unfoldable pub without_hash : Bytes → Bytes
without_hash [] = []
without_hash (b ∷ bs) = if b == b'#' then bs else b ∷ bs

-- `0xFF000000 | color`
abbrev pub opaque : ℕ → ℕ
opaque color = 0xFF000000 + color % 2 ^ 24

-- `ThemeParser::parseColor`
unfoldable pub parse_color : Bytes → ℕ
unfolding trim_blanks stoul_16 without_hash
parse_color text = elim (trim_blanks text) [
  | [] ↦ 0xFF000000
  | b ∷ bs ↦
      (let s = without_hash (b ∷ bs) in
        elim (stoul_16 s) [
          | none ↦ 0xFF000000
          | some n ↦ if length s == 6 then opaque (n % 2 ^ 32) else n % 2 ^ 32
        ])
]

-- `find('=')` with the parts before and behind it.
unfoldable pub split_at_equals : Bytes → Option (Bytes × Bytes)
split_at_equals [] = none
split_at_equals (b ∷ bs) = elim (split_at_equals bs) [
  | none ↦ if b == b'=' then some ([], bs) else none
  | some (key, value) ↦ if b == b'=' then some ([], bs) else some (b ∷ key, value)
]

-- `std::stoi` for an index: the number, or `none` where it throws or the number is negative. A
-- number that does not fit an `int` is one that `stoi` throws on.
unfoldable pub palette_entry : Bytes → Option ℕ
unfolding skip_white read_sign
palette_entry text =
    let (negative, rest) = read_sign (skip_white text) in
    elim rest [
      | [] ↦ none
      | b ∷ bs ↦
          (let (n, behind) = read_decimal 0 (b ∷ bs) in
            if is_digit b && not (negative && ltb 0 n) && ltb n 16 then some n else none)
    ]

-- The value of a `palette` line, `N=#RRGGBB`.
unfoldable pub set_palette : Bytes → Theme → Theme
unfolding parse_color split_at_equals palette_entry
set_palette value t = elim (split_at_equals value) [
  | none ↦ t
  | some (number, color) ↦ (elim (palette_entry number) [
    | none ↦ t
    | some i ↦ record t { palette = set t.palette i (parse_color color) }
  ])
]

-- The assignments of `parseThemeFile` for a key.
unfoldable pub assign : Bytes → Bytes → Theme → Theme
unfolding parse_color set_palette
assign key value t =
    if eqb_bytes key (codes "background")
    then record t { background = parse_color value }
    else if eqb_bytes key (codes "foreground")
    then record t { foreground = parse_color value }
    else if eqb_bytes key (codes "cursor-color")
    then record t { cursor_color = parse_color value }
    else if eqb_bytes key (codes "cursor-text")
    then record t { cursor_text = parse_color value }
    else if eqb_bytes key (codes "selection-background")
    then record t { selection_background = parse_color value }
    else if eqb_bytes key (codes "selection-foreground")
    then record t { selection_foreground = parse_color value }
    else if eqb_bytes key (codes "palette")
    then set_palette value t
    else t

-- One line of the file.
unfoldable pub parse_line : Bytes → Theme → Theme
unfolding trim_blanks split_at_equals assign
parse_line line t = elim (trim_blanks line) [
  | [] ↦ t
  | b ∷ bs ↦ if b == b'#' then t else elim (split_at_equals (b ∷ bs)) [
    | none ↦ t
    | some (key, value) ↦ assign (trim_blanks key) (trim_blanks value) t
  ]
]

-- `std::getline` until it fails: the lines of a text, without a line behind a last line break.
-- `line` is the line so far.
unfoldable pub lines_from : Bytes → Bytes → List Bytes
lines_from line [] = elim line [ [] ↦ [] | c ∷ cs ↦ (c ∷ cs) ∷ [] ]
lines_from line (b ∷ bs) = elim (b == 10) [
  | true ↦ line ∷ lines_from [] bs
  | false ↦ lines_from (line ++ b ∷ []) bs
]

unfoldable pub parse_lines : List Bytes → Theme → Theme
unfolding parse_line
parse_lines [] t = t
parse_lines (line ∷ lines) t = parse_lines lines (parse_line line t)

-- `ThemeParser::parseThemeFile`, which always returns true.
unfoldable pub parse_theme_file : Bytes → Theme → Theme
unfolding lines_from parse_lines
parse_theme_file content t = parse_lines (lines_from [] content) t
