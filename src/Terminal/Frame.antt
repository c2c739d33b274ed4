-- ===== src/Terminal/Frame.antt =====
-- `drawFrame` of terminal.cpp, up to the painting: the cells of the frame with the colours of the text,
-- of the search and of the selection. What libghostty-vt's render state gives is the argument.
pub mod Marks
pub mod Highlighted
use fish_term.Prelude.{
  ℕ, zero, suc, ◌+◌, ◌-◌, ◌≤◌, ◌≡◌, Bool, true, false, ◌&&◌, ◌||◌, not, List, [], ◌∷◌, ◌++◌, length,
  take, drop, map, Option, none, some, get_elem?, ltb, leb, ◌==◌, if◌then◌else◌, ℤ, pos, pos_part,
  ltb_ℤ, leb_ℤ, eqb_ℤ, min, Bytes, replicate,
}
use fish_term.Utf8.{utf8}
use fish_term.Screen.Cell.{Cell, CellAttributes}
use fish_term.Screen.Selection.{Bounds}
use fish_term.Terminal.Cells.{
  Wide, narrow, wide, spacer_tail, spacer_head, VtCell, is_spacer, content_end,
}
use fish_term.Terminal.Colours.{
  RenderColors, Style, StyleColor, no_color, rgb_to_argb, resolve_style_color, apply_ghostty_style,
}
use fish_term.Terminal.Search.{SearchMatch}

-- A cell of the render state with its style, if it has one, and its own colours.
pub record StyledCell : Type 0 where
  pub vt : VtCell
  pub style : Option Style
  pub fg_color : StyleColor
  pub bg_color : StyleColor

-- `CellWidthFromGhostty`
abbrev pub cell_width : Wide → ℕ
cell_width narrow = 1
cell_width wide = 2
cell_width spacer_tail = 3
cell_width spacer_head = 4

-- `SetCellTextFromCodepoints` with one code point, on an array of 64 bytes.
abbrev pub set_cell_text : Bytes → Cell → Cell
set_cell_text text c = record c {
  text = text ++ (0 ∷ drop (length text + 1) c.text);
  text_len = length text;
}

-- `ClearCellText`
abbrev pub clear_cell_text : Cell → Cell
clear_cell_text c = record c { text = 0 ∷ drop 1 c.text; text_len = 0 }

-- The attributes of a cell before its style.
abbrev pub plain_attributes : RenderColors → CellAttributes
plain_attributes colors = record {
  fg = rgb_to_argb colors.foreground;
  bg = rgb_to_argb colors.background;
  bold = false;
  italic = false;
  underline = false;
  strikethrough = false;
  inverse = false;
  hidden = false;
  blink = false;
}

abbrev pub styled_attributes : RenderColors → StyledCell → CellAttributes
styled_attributes colors c =
    let base : CellAttributes = elim c.style [
      | none ↦ plain_attributes colors
      | some style ↦ apply_ghostty_style style colors (plain_attributes colors)
    ] in
    record base {
      fg = resolve_style_color c.fg_color colors base.fg;
      bg = resolve_style_color c.bg_color colors base.bg;
    }

-- A cell of the frame before the search and the selection, in the place of an old one.
unfoldable pub fill_cell : RenderColors → StyledCell → Cell → Cell
unfolding utf8
fill_cell colors c old =
    let cleared : Cell = clear_cell_text (record old {
      codepoint = c.vt.codepoint;
      width = cell_width c.vt.width;
      attrs = styled_attributes colors c;
      selected = false;
    }) in
    if c.vt.has_text && not (is_spacer c.vt.width) && not (c.vt.codepoint == 0)
    then set_cell_text (utf8 c.vt.codepoint) cleared
    else cleared

-- What the search reads of a cell.
abbrev pub search_text : VtCell → Bytes
search_text c =
    if not c.has_text || is_spacer c.width || c.codepoint == 0 then b' ' ∷ [] else utf8 c.codepoint

-- `ByteRangesOverlap`
abbrev pub byte_ranges_overlap : ℕ → ℕ → ℕ → ℕ → Bool
byte_ranges_overlap lhs_start lhs_end rhs_start rhs_end =
    ltb lhs_start rhs_end && ltb rhs_start lhs_end

-- The loop over the matches, from the one of index `i`: the index of that which covers the bytes.
unfoldable pub covering : ℕ → List SearchMatch → ℕ → ℕ → ℕ → Option ℕ
covering i [] row start end = none
covering i (m ∷ ms) row start end =
    let rest = covering (i + 1) ms row start end in
    if ltb m.row row
    then rest
    else if ltb row m.row
    then none
    else if not (byte_ranges_overlap start end m.start_byte m.end_byte)
    then rest
    else some i

-- The colours of a match, and those of the selected one.
abbrev pub match_colors : Bool → CellAttributes → CellAttributes
match_colors true attrs = record attrs { bg = 0xFFE0A23A; fg = 0xFF111111 }
match_colors false attrs = record attrs { bg = 0xFF2F4159; fg = 0xFFFFFFFF }

-- What `drawFrame` reads of the search: `needRowText`, the matches and the selected index.
pub record Highlight : Type 0 where
  pub need_row_text : Bool
  pub matches : List SearchMatch
  pub selected_index : ℤ

unfoldable pub search_cell : Highlight → ℕ → ℕ → ℕ → Cell → Cell
unfolding covering
search_cell h row start end c =
    if not h.need_row_text then c else elim (covering 0 h.matches row start end) [
      | none ↦ c
      | some i ↦ record c { attrs = match_colors (eqb_ℤ (pos i) h.selected_index) c.attrs }
    ]

-- The loop over the cells of a row, `start` bytes behind its start, on the row's part of the buffer.
-- Cells that the render state does not give keep what the last frame left.
unfoldable pub fill_row : RenderColors → Highlight → ℕ → ℕ → List StyledCell → List Cell → List Cell
unfolding fill_cell search_cell
fill_row colors h row start [] old = old
fill_row colors h row start (c ∷ cs) [] = []
fill_row colors h row start (c ∷ cs) (o ∷ old) =
    let end = start + length (search_text c.vt) in
    search_cell h row start end (fill_cell colors c o) ∷ fill_row colors h row end cs old

-- `selDst.selected = true` with the theme's colours.
abbrev pub select_cell : ℕ → ℕ → Cell → Cell
select_cell bg fg c = record c { selected = true; attrs = record c.attrs { bg = bg; fg = fg } }

abbrev pub select_at : ℕ → ℕ → ℕ → List Cell → List Cell
select_at bg fg i [] = []
select_at bg fg zero (c ∷ cs) = select_cell bg fg c ∷ cs
select_at bg fg (suc i) (c ∷ cs) = c ∷ select_at bg fg i cs

-- One round of the selection's loop: the cell of a column, and the next one behind a wide character.
abbrev pub select_wide : ℕ → ℕ → ℕ → ℕ → List Cell → List Cell
select_wide bg fg cols c cells =
    let selected = select_at bg fg c cells in
    elim (get_elem? cells c) [
      | none ↦ selected
      | some cell ↦
          if cell.width == 2 && ltb (suc c) cols then select_at bg fg (suc c) selected else selected
    ]

-- The selection's loop, for a number of columns.
unfoldable pub select_from : ℕ → ℕ → ℕ → ℕ → ℕ → List Cell → List Cell
select_from bg fg zero c cols cells = cells
select_from bg fg (suc n) c cols cells =
    select_from bg fg n (suc c) cols (select_wide bg fg cols c cells)

-- The selection on the absolute row `row`, whose last content is in front of `content`.
unfoldable pub select_row : ℕ → ℕ → Bounds → ℤ → ℕ → ℕ → List Cell → List Cell
unfolding select_from
select_row bg fg b row content cols cells =
    let first = if eqb_ℤ row b.start_row then pos_part b.start_col else 0 in
    let end =
      if eqb_ℤ row b.end_row && ltb (pos_part b.end_col + 1) content
      then pos_part b.end_col + 1
      else content in
    if ltb_ℤ row b.start_row || ltb_ℤ b.end_row row
    then cells
    else if ltb first content
    then select_from bg fg (end - first) first cols cells
    else cells

-- What `drawFrame` reads of the terminal: its size, the top row and the theme's colours; `selection`
-- has the bounds of a selection that is active and not the application's.
pub record Shown : Type 0 where
  pub cols : ℕ
  pub top : ℕ
  pub colors : RenderColors
  pub highlight : Highlight
  pub selection : Option Bounds
  pub selection_background : ℕ
  pub selection_foreground : ℕ

-- A row of the frame, with the cells that the loop reads of it.
unfoldable pub draw_row : Shown → ℕ → List StyledCell → List Cell → List Cell
unfolding fill_row select_row content_end
draw_row s row cs old =
    let filled = fill_row s.colors s.highlight (s.top + row) 0 cs old in
    elim s.selection [
      | none ↦ filled
      | some b ↦
          select_row s.selection_background s.selection_foreground b (pos (s.top + row))
            (content_end (map (λ c. c.vt) cs)) s.cols filled
    ]

-- The loop over the rows, on the buffer that the last frame left.
unfoldable pub draw_rows : Shown → ℕ → List (List StyledCell) → List (List Cell) → List (List Cell)
unfolding draw_row
draw_rows s row [] old = old
draw_rows s row (cs ∷ grid) [] = []
draw_rows s row (cs ∷ grid) (o ∷ old) = draw_row s row cs o ∷ draw_rows s (suc row) grid old

-- `getCurrentBgColor`, with the fallback where the render state gives no colours.
abbrev pub get_current_bg_color : Option RenderColors → ℕ
get_current_bg_color none = 0xFF0B0D10
get_current_bg_color (some colors) = rgb_to_argb colors.background
