-- ===== src/Terminal/Text.antt =====
-- The text of the display: `getScreenLine`, `getScreenContent` and `getCursorPosition` of terminal.cpp.
-- What libghostty-vt's render state gives is the argument.
pub mod Ends
pub mod Trimmed
use fish_term.Prelude.{
  ℕ, zero, suc, ◌-◌, Bool, true, false, ◌||◌, List, [], ◌∷◌, ◌++◌, Option, none, some, length, take,
  map, get_elem?, ltb, if◌then◌else◌, ℤ, pos, pos_part, ltb_ℤ, leb_ℤ, ◌-ℤ◌, Bytes,
}
use fish_term.Terminal.Cells.{VtCell, Grid, last_from, content_end}
use fish_term.Terminal.Selection.{View, cells_text}

-- The text of a row, cut at the offset behind its last content cell.
unfoldable pub screen_line : List VtCell → Bytes
unfolding cells_text content_end
screen_line cells = take (length (cells_text (take (content_end cells) cells))) (cells_text cells)

-- `getScreenLine`
unfoldable pub get_screen_line : View → ℤ → Bytes
unfolding screen_line
get_screen_line v row =
    if ltb_ℤ row (pos 0) || leb_ℤ (pos v.rows) row
    then []
    else elim (get_elem? v.grid (pos_part row)) [
      | none ↦ []
      | some cells ↦ screen_line (take v.cols cells)
    ]

-- The last loop of `getScreenContent`: the lines with a line feed between them.
unfoldable pub join_lines : List Bytes → Bytes
join_lines [] = []
join_lines (line ∷ []) = line
join_lines (line ∷ next ∷ lines) = line ++ (10 ∷ join_lines (next ∷ lines))

-- `lastContentCol >= 0`
abbrev pub has_content : List VtCell → Bool
has_content cells = ltb 0 (content_end cells)

-- The rows that the loop of `getScreenContent` goes over, with the cells that it reads.
abbrev pub rows_read : View → Grid
rows_read v = map (take v.cols) (take v.rows v.grid)

-- `getScreenContent`: the lines up to `lastNonBlankRow`.
unfoldable pub get_screen_content : View → Bytes
unfolding join_lines screen_line last_from
get_screen_content v =
    join_lines (take (last_from has_content 0 0 (rows_read v)) (map screen_line (rows_read v)))

-- `getCursorPosition`: the cursor in the viewport, if it is there, with whether it is on the tail of a
-- wide character; otherwise that of the active screen.
unfoldable pub get_cursor_position : Option ((ℤ × ℤ) × Bool) → ℤ × ℤ → ℤ × ℤ
get_cursor_position none active = active
get_cursor_position (some ((row, col), tail)) active =
    (row, if tail then (if ltb_ℤ (pos 0) col then col -ℤ pos 1 else col) else col)
