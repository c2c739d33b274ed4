-- ===== src/Screen/Selection.antt =====
-- The selection: `startSelection`, `updateSelection`, `clearSelection` and `getSelectionBounds` of
-- `TerminalState`, and `IsCellSelected` of terminal.cpp in the same folder.
use fish_term.Prelude.{
  ◌≡◌, refl, Bool, true, false, ◌&&◌, ◌||◌, not, ℤ, pos, ◌≤ℤ◌, ltb_ℤ, leb_ℤ, eqb_ℤ, if◌then◌else◌,
  arith, Bool-cases, inl, inr, ◌∙◌,
}
use fish_term.Screen.State.{Screen}

-- `startSelection`
unfoldable pub start_selection : ℤ → ℤ → Screen → Screen
start_selection row col s = record s {
  selection_active = true;
  sel_start_row = row;
  sel_start_col = col;
  sel_end_row = row;
  sel_end_col = col;
}

-- `updateSelection`
unfoldable pub update_selection : ℤ → ℤ → Screen → Screen
update_selection row col s =
    if s.selection_active then record s { sel_end_row = row; sel_end_col = col } else s

-- `clearSelection`
unfoldable pub clear_selection : Screen → Screen
clear_selection s = record s { selection_active = false }

pub record Bounds : Type 0 where
  pub start_row : ℤ
  pub start_col : ℤ
  pub end_row : ℤ
  pub end_col : ℤ

-- `getSelectionBounds`
unfoldable pub selection_bounds : Screen → Bounds
selection_bounds s =
    if ltb_ℤ s.sel_start_row s.sel_end_row
      || eqb_ℤ s.sel_start_row s.sel_end_row && leb_ℤ s.sel_start_col s.sel_end_col
    then record {
      start_row = s.sel_start_row;
      start_col = s.sel_start_col;
      end_row = s.sel_end_row;
      end_col = s.sel_end_col;
    }
    else record {
      start_row = s.sel_end_row;
      start_col = s.sel_end_col;
      end_row = s.sel_start_row;
      end_col = s.sel_start_col;
    }

-- `IsCellSelected`
unfoldable pub is_cell_selected : Bool → Bounds → ℤ → ℤ → Bool
is_cell_selected active b row col =
    if not active
    then false
    else (if ltb_ℤ row b.start_row || ltb_ℤ b.end_row row
        then false
        else (let col_start = if eqb_ℤ row b.start_row then b.start_col else pos 0 in
            let col_end = if eqb_ℤ row b.end_row then b.end_col else col in
            leb_ℤ col_start col && leb_ℤ col col_end))

-- In reading order, the first place is the second one or stands before it.
abbrev pub reads_to : ℤ → ℤ → ℤ → ℤ → Bool
reads_to r c r' c' = ltb_ℤ r r' || eqb_ℤ r r' && leb_ℤ c c'

-- With an active selection, the cells that `IsCellSelected` picks are those between the bounds in
-- reading order, for a column that is not negative.
pub is_cell_selected-reads_to :
    (b : Bounds) (row col : ℤ)
    → pos 0 ≤ℤ col
    → is_cell_selected true b row col
      ≡ (reads_to b.start_row b.start_col row col && reads_to row col b.end_row b.end_col)
unfolding is_cell_selected
is_cell_selected-reads_to b row col h = ground arith

-- The bounds are in reading order, whichever end the selection was dragged to.
pub selection_bounds-reads_to :
    (s : Screen)
    → reads_to
        (selection_bounds s).start_row
        (selection_bounds s).start_col
        (selection_bounds s).end_row
        (selection_bounds s).end_col
      ≡ true
unfolding selection_bounds
selection_bounds-reads_to s = ground arith

-- The screen after a drag from one place to another.
abbrev pub dragged : ℤ → ℤ → ℤ → ℤ → Screen → Screen
dragged r c r' c' s = update_selection r' c' (start_selection r c s)

dragged_bounds :
    (r c r' c' : ℤ) (s : Screen)
    → selection_bounds (dragged r c r' c' s) ≡ (
        if reads_to r c r' c'
        then record { start_row = r; start_col = c; end_row = r'; end_col = c' }
        else record { start_row = r'; start_col = c'; end_row = r; end_col = c })
unfolding selection_bounds update_selection start_selection
dragged_bounds r c r' c' s = refl

-- A drag from one place to another selects the cells between the two in reading order, whichever of
-- them comes first, for a column that is not negative.
pub selected_by_drag :
    (r c r' c' row col : ℤ) (s : Screen)
    → pos 0 ≤ℤ col
    → is_cell_selected
        (dragged r c r' c' s).selection_active
        (selection_bounds (dragged r c r' c' s))
        row
        col
      ≡ (reads_to r c row col && reads_to row col r' c'
          || reads_to r' c' row col && reads_to row col r c)
unfolding update_selection start_selection
selected_by_drag r c r' c' row col s h =
    rw (dragged_bounds r c r' c' s) (elim (Bool-cases (reads_to r c r' c')) [
      | inl e ↦ rw e (is_cell_selected-reads_to _ row col h ∙ ground arith)
      | inr e ↦ rw e (is_cell_selected-reads_to _ row col h ∙ ground arith)
    ])
