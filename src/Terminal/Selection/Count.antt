-- ===== src/Terminal/Selection/Count.antt =====
-- What the host asks about a selection before it deletes it: `isCursorAtSelectionStart`,
-- `isCursorAtSelectionEnd` and `getSelectionCharCount` of terminal.cpp.
use fish_term.Prelude.{
  ℕ, zero, suc, ◌+◌, ◌-◌, Bool, false, ◌&&◌, ◌||◌, not, List, none, some, get_elem?, take, leb,
  ◌==◌, min, if◌then◌else◌, ℤ, pos, pos_part, neg_part, ◌+ℤ◌, ◌-ℤ◌, ltb_ℤ, eqb_ℤ,
}
use fish_term.Screen.Selection.{Bounds}
use fish_term.Terminal.Cells.{VtCell, is_cell_content, content_end}
use fish_term.Terminal.Selection.{View, Selection, normalize}

-- `absRow == row && std::abs(viewportCol - col) <= 1`
abbrev pub is_near : View → ℤ → ℤ → ℤ → ℤ → Bool
is_near v viewport_row viewport_col row col =
    eqb_ℤ (pos v.top +ℤ viewport_row) row
    && leb (pos_part (viewport_col -ℤ col) + neg_part (viewport_col -ℤ col)) 1

-- `isCursorAtSelectionStart`
unfoldable pub is_cursor_at_selection_start : View → ℤ → ℤ → Selection → Bool
unfolding normalize
is_cursor_at_selection_start v row col s =
    if not s.active
    then false
    else is_near v row col (normalize s).start_row (normalize s).start_col

-- `isCursorAtSelectionEnd`
unfoldable pub is_cursor_at_selection_end : View → ℤ → ℤ → Selection → Bool
unfolding normalize
is_cursor_at_selection_end v row col s =
    if not s.active then false else is_near v row col (normalize s).end_row (normalize s).end_col

-- What a column adds to the count. A column that the row does not give has no content.
abbrev pub column_count : List VtCell → Bool → ℕ → ℕ → ℕ
column_count cells exclude_end end_col col =
    if exclude_end && col == end_col
    then 0
    else elim (get_elem? cells col) [ none ↦ 0 | some c ↦ if is_cell_content c then 1 else 0 ]

-- The loop over `left` columns from `col` on.
unfoldable pub count_columns : List VtCell → Bool → ℕ → ℕ → ℕ → ℕ
unfolding is_cell_content
count_columns cells exclude_end end_col zero col = 0
count_columns cells exclude_end end_col (suc left) col =
    column_count cells exclude_end end_col col
    + count_columns cells exclude_end end_col left (col + 1)

-- The count on the cells of the selected row, between the bounds and up to the last content.
unfoldable pub count_row : List VtCell → Bool → Bounds → ℕ
unfolding count_columns content_end
count_row cells exclude_end b =
    count_columns cells exclude_end (pos_part b.end_col)
      (min (pos_part b.end_col + 1) (content_end cells) - pos_part b.start_col)
      (pos_part b.start_col)

-- The count for an active selection, from its bounds.
unfoldable pub count_bounds : View → Bool → Bounds → ℕ
unfolding count_row
count_bounds v exclude_end b =
    let viewport_row = b.start_row -ℤ pos v.top in
    if not (eqb_ℤ b.start_row b.end_row)
    then 0
    else if ltb_ℤ viewport_row (pos 0) || not (ltb_ℤ viewport_row (pos v.rows))
    then 0
    else elim (get_elem? v.grid (pos_part viewport_row)) [
      | none ↦ 0
      | some cells ↦ count_row (take v.cols cells) exclude_end b
    ]

-- `getSelectionCharCount`
unfoldable pub get_selection_char_count : View → Bool → Selection → ℕ
unfolding normalize count_bounds
get_selection_char_count v exclude_end s =
    if not s.active then 0 else count_bounds v exclude_end (normalize s)
