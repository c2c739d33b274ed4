-- ===== src/Tests/FrameTests.antt =====
-- A run of `drawFrame` on a row, and the theorem applied at it.
use fish_term.Prelude.{
  ℕ, ◌≡◌, refl, Bool, true, false, List, [], ◌∷◌, map, replicate, none, some, pos, if◌then◌else◌,
  arith,
}
use fish_term.Utf8.{utf8}
use fish_term.Screen.Cell.{blank}
use fish_term.Screen.Selection.{Bounds}
use fish_term.Terminal.Cells.{Wide, narrow, wide, spacer_tail}
use fish_term.Terminal.Colours.{
  Rgb, RenderColors, no_color, rgb_color, rgb_to_argb, argb_to_rgb, resolve_style_color, is_light,
}
use fish_term.Terminal.Selection.{row_text}
use fish_term.Theme.{default_theme}
use fish_term.Terminal.Frame.{StyledCell, Highlight, Shown, draw_row}
use fish_term.Terminal.Frame.Marks.{selected_text}
use fish_term.Terminal.Frame.Highlighted.{vt_cells, is_in_rows, draw_row-text}

abbrev styled : ℕ → Wide → Bool → StyledCell
styled c w has_text = record {
  vt = record { codepoint = c; width = w; has_text = has_text };
  style = none;
  fg_color = no_color;
  bg_color = rgb_color (record { r = 1; g = 2; b = 3 });
}

-- `a`, a wide character with its tail, `b`, and a space.
abbrev row : List StyledCell
row =
    styled b'a' narrow true
    ∷ styled 0x4E2D wide true
    ∷ styled 0 spacer_tail false
    ∷ styled b'b' narrow true
    ∷ styled b' ' narrow true
    ∷ []

abbrev black : Rgb
black = record { r = 0; g = 0; b = 0 }

abbrev colors : RenderColors
colors = record {
  background = black;
  foreground = record { r = 255; g = 255; b = 255 };
  cursor = black;
  cursor_has_value = false;
  palette = replicate 256 black;
}

-- A search with one match, on the wide character.
abbrev highlight : Highlight
highlight = record {
  need_row_text = true;
  matches = (record { row = 7; start_byte = 1; end_byte = 4 }) ∷ [];
  selected_index = pos 0;
}

-- From the wide character to the next row.
abbrev bounds : Bounds
bounds = record { start_row = pos 7; start_col = pos 1; end_row = pos 8; end_col = pos 0 }

abbrev shown : Shown
shown = record {
  cols = 5;
  top = 7;
  colors = colors;
  highlight = highlight;
  selection = none;
  selection_background = 0xFF444444;
  selection_foreground = 0xFFFFFFFF;
}

argb_opaque : rgb_to_argb (argb_to_rgb 0x80123456) ≡ 0xFF123456
unfolding rgb_to_argb argb_to_rgb
argb_opaque = refl

dark_theme : is_light default_theme ≡ false
unfolding is_light argb_to_rgb default_theme
dark_theme = refl

-- The match has its colours, the cell in front of it its own.
match_shown :
    map (λ c. c.attrs.bg) (draw_row shown 0 row (replicate 5 blank))
    ≡ 0xFF010203 ∷ 0xFFE0A23A ∷ 0xFF010203 ∷ 0xFF010203 ∷ 0xFF010203 ∷ []
unfolding draw_row utf8 rgb_to_argb resolve_style_color
match_shown = refl

-- The highlight ends with the content.
selection_shown :
    map
      (λ c. c.selected)
      (draw_row (record shown { selection = some bounds }) 0 row (replicate 5 blank))
    ≡ false ∷ true ∷ true ∷ true ∷ false ∷ []
unfolding draw_row utf8 rgb_to_argb resolve_style_color
selection_shown = refl

draw_row-text_example :
    selected_text
      (vt_cells row)
      (draw_row (record shown { selection = some bounds }) 0 row (replicate 5 blank))
    ≡ (if is_in_rows bounds (pos 7) then row_text bounds (pos 7) (vt_cells row) else [])
draw_row-text_example =
    draw_row-text shown bounds 0 row (replicate 5 blank)
      ((λ e. cc), ((λ e. refl), ((λ e. cc), ((λ e. cc), tt)))) (ground arith)
