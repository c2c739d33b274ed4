-- ===== src/Terminal/Selection.antt =====
-- The selection of the class `Terminal`. The scrolled part of the scrollback that is on display, and
-- the cells that libghostty-vt gives for it, are an argument.
pub mod Words
pub mod Ends
pub mod Output
pub mod Count
use fish_term.Prelude.{
  ℕ, zero, suc, ◌+◌, ◌-◌, Bool, true, false, ◌&&◌, ◌||◌, not, List, [], ◌∷◌, ◌++◌, Option, none,
  some, get_elem?, take, drop, ltb, leb, ◌==◌, min, if◌then◌else◌, ℤ, pos, negsuc, pos_part,
  neg_part, ◌+ℤ◌, ◌-ℤ◌, ltb_ℤ, leb_ℤ, eqb_ℤ, min_ℤ, max_ℤ, Bytes,
}
use fish_term.Utf8.{utf8}
use fish_term.Screen.Selection.{Bounds, is_cell_selected}
use fish_term.Terminal.Cells.{
  Wide, narrow, wide, spacer_tail, spacer_head, VtCell, Grid, is_spacer, is_cell_content, last_from,
  content_end, cell_at, kind_at, word_start, word_end,
}

-- `m_cols`, `m_rows`, `getViewportTopRowLocked` and the rows of the render state.
pub record View : Type 0 where
  pub cols : ℕ
  pub rows : ℕ
  pub top : ℕ
  pub grid : Grid

pub record Selection : Type 0 where
  pub active : Bool
  pub app_owned : Bool
  pub start_row : ℤ
  pub start_col : ℕ
  pub end_row : ℤ
  pub end_col : ℕ

-- `ClampIndex`
unfoldable pub clamp_index : ℤ → ℕ → ℕ
clamp_index value limit =
    if limit == 0 then 0 else pos_part (max_ℤ (pos 0) (min_ℤ value (pos (limit - 1))))

-- `IsSelectionBefore`
abbrev pub is_selection_before : ℤ → ℕ → ℤ → ℕ → Bool
is_selection_before row_a col_a row_b col_b =
    ltb_ℤ row_a row_b || eqb_ℤ row_a row_b && leb col_a col_b

-- `normalizeSelectionBounds`
unfoldable pub normalize : Selection → Bounds
normalize s =
    if is_selection_before s.start_row s.start_col s.end_row s.end_col
    then record {
      start_row = s.start_row;
      start_col = pos s.start_col;
      end_row = s.end_row;
      end_col = pos s.end_col;
    }
    else record {
      start_row = s.end_row;
      start_col = pos s.end_col;
      end_row = s.start_row;
      end_col = pos s.start_col;
    }

-- `startSelection`
unfoldable pub start_selection : View → ℤ → ℤ → Bool → Selection
unfolding clamp_index
start_selection v row col app_owned = record {
  active = true;
  app_owned = app_owned;
  start_row = pos (v.top + clamp_index row v.rows);
  start_col = clamp_index col v.cols;
  end_row = pos (v.top + clamp_index row v.rows);
  end_col = clamp_index col v.cols;
}

-- `updateSelection`
unfoldable pub update_selection : View → ℤ → ℤ → Selection → Selection
unfolding clamp_index
update_selection v row col s = if not s.active then s else record s {
  end_row = pos (v.top + clamp_index row v.rows);
  end_col = clamp_index col v.cols;
}

abbrev pub is_wide : Wide → Bool
is_wide wide = true
is_wide other = false

abbrev pub is_tail : Wide → Bool
is_tail spacer_tail = true
is_tail other = false

-- The step over the other half of a wide character, from column `col` in the direction `d_col`.
unfoldable pub snap : ℕ → ℤ → Wide → ℕ → ℕ
snap cols d_col width col =
    if ltb_ℤ (pos 0) d_col && is_wide width && ltb (col + 1) cols
    then col + 1
    else if ltb_ℤ d_col (pos 0) && is_tail width && ltb 0 col
    then col - 1
    else col

-- The last column of `extendSelection`, which starts from the clamped one.
unfoldable pub snapped : View → ℤ → ℕ → ℕ → ℕ → ℕ
unfolding snap
snapped v d_col old_col row col =
    if not (eqb_ℤ d_col (pos 0)) && not (col == old_col) && ltb 0 v.rows && ltb 0 v.cols
    then elim (cell_at v.grid row col) [ none ↦ col | some c ↦ snap v.cols d_col c.width col ]
    else col

-- `extendSelection`
unfoldable pub extend_selection : View → ℤ → ℤ → Selection → Selection
unfolding clamp_index snapped
extend_selection v d_row d_col s =
    let row = clamp_index ((s.end_row -ℤ pos v.top) +ℤ d_row) v.rows in
    let col = clamp_index (pos s.end_col +ℤ d_col) v.cols in
    if not s.active
    then s
    else record s { end_row = pos (v.top + row); end_col = snapped v d_col s.end_col row col }

-- The selection of one row, as `selectWordAt` and `selectLineAt` leave it.
abbrev pub row_selection : ℕ → ℕ → ℕ → Selection
row_selection row start_col end_col = record {
  active = true;
  app_owned = false;
  start_row = pos row;
  start_col = start_col;
  end_row = pos row;
  end_col = end_col;
}

-- `selectWordAt`
unfoldable pub select_word_at : View → ℤ → ℤ → Selection → Selection
unfolding clamp_index
select_word_at v row col s =
    let target_row = clamp_index row v.rows in
    let target_col = clamp_index col v.cols in
    if v.rows == 0 || v.cols == 0 then s else elim (get_elem? v.grid target_row) [
      | none ↦ s
      | some cells ↦
          (let kind = kind_at cells target_col in
            row_selection (v.top + target_row) (word_start cells kind target_col)
              (word_end cells kind (v.cols - (target_col + 1)) target_col))
    ]

-- `cellHasText` of `selectLineAt`.
abbrev pub has_own_text : VtCell → Bool
has_own_text c = if is_spacer c.width then false else c.has_text

-- `selectLineAt`
unfoldable pub select_line_at : View → ℤ → Selection → Selection
unfolding clamp_index last_from
select_line_at v row s =
    let target_row = clamp_index row v.rows in
    if v.rows == 0 || v.cols == 0 then s else elim (get_elem? v.grid target_row) [
      | none ↦ s
      | some cells ↦
          row_selection (v.top + target_row) 0 (last_from has_own_text 0 0 (take v.cols cells) - 1)
    ]

-- `clearSelection`
unfoldable pub clear_selection : Selection → Selection
clear_selection s = if not s.active then s else record s { active = false; app_owned = false }

-- `feedOutput`, from the top row before the output, that after it, the rows in the scrollback after
-- it and `m_maxScrollback`.
unfoldable pub feed_selection : ℕ → ℕ → ℕ → ℤ → Selection → Selection
feed_selection old_top new_top total max_scrollback s =
    let delta = pos new_top -ℤ pos old_top in
    let limit = if ltb_ℤ (pos 0) max_scrollback then max_scrollback else pos 10000 in
    let first = max_ℤ (pos 0) (pos total -ℤ limit) in
    let moved = record s { start_row = s.start_row +ℤ delta; end_row = s.end_row +ℤ delta } in
    if not s.active
    then s
    else if ltb_ℤ moved.end_row first || leb_ℤ (pos total) moved.start_row
    then record moved { active = false; app_owned = false }
    else moved

-- `isSelectionAt`
unfoldable pub is_selection_at : View → ℤ → ℤ → Selection → Bool
unfolding clamp_index normalize content_end
is_selection_at v row col s =
    let view_row = clamp_index row v.rows in
    let c = clamp_index col v.cols in
    if not s.active
    then false
    else if not (is_cell_selected true (normalize s) (pos (v.top + view_row)) (pos c))
    then false
    else if not (ltb view_row v.rows)
    then false
    else elim (get_elem? v.grid view_row) [
      | none ↦ false
      | some cells ↦ ltb c (content_end (take v.cols cells))
    ]

-- What `getSelectedText` writes for a cell: nothing for a spacer.
unfoldable pub cell_text : VtCell → Bytes
cell_text c =
    if is_spacer c.width
    then []
    else if not c.has_text || c.codepoint == 0
    then b' ' ∷ []
    else utf8 c.codepoint

unfoldable pub cells_text : List VtCell → Bytes
unfolding cell_text
cells_text [] = []
cells_text (c ∷ cs) = cell_text c ++ cells_text cs

-- The cells of one row from the first selected column to the last one, up to its last content.
unfoldable pub row_text : Bounds → ℤ → List VtCell → Bytes
unfolding cells_text content_end
row_text b row cells =
    let first = if eqb_ℤ row b.start_row then pos_part b.start_col else 0 in
    let content = content_end cells in
    let end =
      if eqb_ℤ row b.end_row && ltb (pos_part b.end_col + 1) content
      then pos_part b.end_col + 1
      else content in
    if ltb first content then cells_text (drop first (take end cells)) else []

-- The loop over the rows on display from the absolute row `row`.
unfoldable pub rows_text : Bounds → ℕ → ℕ → Grid → Bytes
unfolding row_text
rows_text b cols row [] = []
rows_text b cols row (cells ∷ grid) =
    let rest = rows_text b cols (row + 1) grid in
    if ltb_ℤ (pos row) b.start_row || ltb_ℤ b.end_row (pos row)
    then rest
    else row_text b (pos row) (take cols cells)
      ++ ((if ltb_ℤ (pos row) b.end_row then 10 ∷ [] else []) ++ rest)

-- `getSelectedText`
unfoldable pub get_selected_text : View → Selection → Bytes
unfolding normalize rows_text
get_selected_text v s =
    if not s.active then [] else rows_text (normalize s) v.cols v.top (take v.rows v.grid)
