-- ===== src/Terminal/Selection/Ends.antt =====
-- The two ends of a selection: their order does not matter, and the moved end stays on display.
use fish_term.Prelude.{
  ap, ℕ, ◌+◌, ◌<◌, ◌≡◌, refl, Bool, true, ◌&&◌, not, Option, none, some, ltb, ◌==◌, if◌then◌else◌,
  ℤ, pos, ◌≤ℤ◌, ltb_ℤ, eqb_ℤ, eqb_ℤ→eq, ◌+ℤ◌, ◌-ℤ◌, arith,
}
use fish_term.Terminal.Cells.{VtCell, Wide, cell_at}
use fish_term.Terminal.Selection.Count.{
  is_cursor_at_selection_start, is_cursor_at_selection_end, get_selection_char_count, count_bounds,
}
use fish_term.Terminal.Selection.Words.{clamp_index-lt}
use fish_term.Terminal.Selection.{
  View, Selection, clamp_index, normalize, start_selection, update_selection, extend_selection,
  snap, snapped, get_selected_text, is_selection_at,
}

-- The selection dragged the other way.
abbrev pub swap : Selection → Selection
swap s = record s {
  start_row = s.end_row;
  start_col = s.end_col;
  end_row = s.start_row;
  end_col = s.start_col;
}

normalize-swap : (s : Selection) → normalize (swap s) ≡ normalize s
unfolding normalize
normalize-swap s = ground (arith, eqb_ℤ→eq s.start_row s.end_row)

-- The direction of the drag changes neither the selected text, nor the count of its characters, nor
-- which places are on the selection, at its start or at its end.
pub get_selected_text-swap :
    (v : View) (s : Selection)
    → (get_selected_text v (swap s) ≡ get_selected_text v s)
      × ((exclude_end : Bool)
          → get_selection_char_count v exclude_end (swap s)
            ≡ get_selection_char_count v exclude_end s)
      × ((row col : ℤ)
          → (is_selection_at v row col (swap s) ≡ is_selection_at v row col s)
            × (is_cursor_at_selection_start v row col (swap s)
                ≡ is_cursor_at_selection_start v row col s)
            × (is_cursor_at_selection_end v row col (swap s)
                ≡ is_cursor_at_selection_end v row col s))
unfolding get_selected_text is_selection_at is_cursor_at_selection_start is_cursor_at_selection_end
    get_selection_char_count
get_selected_text-swap v s =
    let same = normalize-swap s in
    (
      rw same refl,
      λ exclude_end. ap (λ b. if not s.active then 0 else count_bounds v exclude_end b) same,
      λ row col. (rw same refl, rw same refl, rw same refl),
    )

-- The end that moves is on a cell of the display.
abbrev pub IsOnDisplay : View → Selection → Type 0
IsOnDisplay v s =
    (pos v.top ≤ℤ s.end_row)
    × (ltb_ℤ s.end_row (pos (v.top + v.rows)) ≡ true)
    × (s.end_col < v.cols)

snap-lt : (cols : ℕ) (d : ℤ) (w : Wide) (col : ℕ) → col < cols → snap cols d w col < cols
unfolding snap
snap-lt cols d w col h = ground arith

snapped-lt : (v : View) (d : ℤ) (old row col : ℕ) → col < v.cols → snapped v d old row col < v.cols
unfolding snapped
snapped-lt v d old row col h = go (cell_at v.grid row col)
  where
    go :
        (found : Option VtCell)
        → (if not (eqb_ℤ d (pos 0)) && not (col == old) && ltb 0 v.rows && ltb 0 v.cols
            then elim found [ none ↦ col | some c ↦ snap v.cols d c.width col ]
            else col)
          < v.cols
    go none = ground arith
    go (some c) = ground (arith, snap-lt v.cols d c.width col h)

placed :
    (v : View) (row col : ℕ)
    → row < v.rows
    → col < v.cols
    → (pos v.top ≤ℤ pos (v.top + row))
      × (ltb_ℤ (pos (v.top + row)) (pos (v.top + v.rows)) ≡ true)
      × (col < v.cols)
placed v row col h k = (omega arith, ground arith, k)

-- On a display with rows and columns, `startSelection`, and on an active selection `updateSelection`
-- and `extendSelection`, leave the moved end on a cell of the display, whatever place or step they
-- are given.
pub extend_selection-IsOnDisplay :
    (v : View) (a b : ℤ) (app_owned : Bool) (s : Selection)
    → 0 < v.rows
    → 0 < v.cols
    → s.active ≡ true
    → IsOnDisplay v (start_selection v a b app_owned)
      × IsOnDisplay v (update_selection v a b s)
      × IsOnDisplay v (extend_selection v a b s)
unfolding start_selection update_selection extend_selection
extend_selection-IsOnDisplay v a b app_owned s has_rows has_cols active =
    let row = clamp_index-lt a v.rows has_rows in
    let col = clamp_index-lt b v.cols has_cols in
    (
      placed v (clamp_index a v.rows) (clamp_index b v.cols) row col,
      rw active (placed v (clamp_index a v.rows) (clamp_index b v.cols) row col),
      rw active (
          placed v (clamp_index ((s.end_row -ℤ pos v.top) +ℤ a) v.rows)
            (snapped v b s.end_col (clamp_index ((s.end_row -ℤ pos v.top) +ℤ a) v.rows)
              (clamp_index (pos s.end_col +ℤ b) v.cols))
            (clamp_index-lt ((s.end_row -ℤ pos v.top) +ℤ a) v.rows has_rows)
            (snapped-lt v b s.end_col (clamp_index ((s.end_row -ℤ pos v.top) +ℤ a) v.rows)
              (clamp_index (pos s.end_col +ℤ b) v.cols)
              (clamp_index-lt (pos s.end_col +ℤ b) v.cols has_cols))),
    )
