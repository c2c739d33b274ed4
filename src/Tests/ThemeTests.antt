-- ===== src/Tests/ThemeTests.antt =====
-- Runs of the theme parser, and its theorem applied at a colour.
use fish_term.Prelude.{◌+◌, ◌≡◌, refl, true, [], ◌∷◌, ◌++◌, Bytes, codes, arith, hex_value}
use fish_term.Theme.{default_theme}
use fish_term.Theme.Parser.{
  parse_color, parse_theme_file, trim_front, trim_back, skip_white, hex_number, split_at_equals,
  lines_from,
}
use fish_term.Theme.Parser.Colour.{hex_rgb, parse_color-hex_rgb}

-- A file with a comment, a colour, a palette entry, and entries that the parser passes over.
abbrev file : Bytes
file =
    codes "# theme"
    ++ 10 ∷ codes " background = #1a2B3c "
    ++ 13 ∷ 10 ∷ codes "palette = 3=#000001"
    ++ 10 ∷ codes "palette = 16=#000002"
    ++ 10 ∷ codes "other = 1"

run_file : parse_theme_file file default_theme ≡ record default_theme {
  background = 0xFF1A2B3C;
  palette =
      0xFF000000 ∷ 0xFFCC0000 ∷ 0xFF00CC00 ∷ 0xFF000001 ∷ 0xFF0000CC ∷ 0xFFCC00CC ∷ 0xFF00CCCC
      ∷ 0xFFCCCCCC ∷ 0xFF555555 ∷ 0xFFFF5555 ∷ 0xFF55FF55 ∷ 0xFFFFFF55 ∷ 0xFF5555FF ∷ 0xFFFF55FF
      ∷ 0xFF55FFFF ∷ 0xFFFFFFFF ∷ [];
}
unfolding parse_theme_file trim_front trim_back skip_white hex_number split_at_equals lines_from
    hex_value default_theme
run_file = refl

run_no_colour : parse_color (codes " red ") ≡ 0xFF000000
unfolding parse_color trim_front trim_back skip_white hex_number hex_value
run_no_colour = refl

-- Hexadecimal digits at the front are enough, and only six digits are made opaque.
run_short : parse_color (codes "#fff") ≡ 0x00000FFF
unfolding parse_color trim_front trim_back skip_white hex_number hex_value
run_short = refl

run_alpha : parse_color (codes "0x80FF0000") ≡ 0x80FF0000
unfolding parse_color trim_front trim_back skip_white hex_number hex_value
run_alpha = refl

parse_color-hex_rgb_example :
    (parse_color (hex_rgb true 0x1A2B3C) ≡ 0xFF000000 + 0x1A2B3C)
    × (parse_color (b'#' ∷ hex_rgb true 0x1A2B3C) ≡ 0xFF000000 + 0x1A2B3C)
parse_color-hex_rgb_example = parse_color-hex_rgb true 0x1A2B3C (omega arith)
