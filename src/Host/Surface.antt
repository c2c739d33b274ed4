-- ===== src/Host/Surface.antt =====
-- What the key handler and the handlers of the input method do to a terminal: what they write to it,
-- and how they erase or extend its selection.
use fish_term.Prelude.{
  Bool, false, ◌&&◌, ◌||◌, not, [], ◌∷◌, ◌++◌, ltb, leb, if◌then◌else◌, ℤ, Bytes, codes,
}
use fish_term.Terminal.Mouse.{repeat}
use fish_term.Terminal.Selection.{
  View, Selection, start_selection, extend_selection, clear_selection,
}
use fish_term.Terminal.Selection.Count.{
  is_cursor_at_selection_start, is_cursor_at_selection_end, get_selection_char_count,
}

-- A running terminal with its cursor and its selection; `written` is what `writeInput` has given to
-- its input callback.
pub record Surface : Type 0 where
  pub view : View
  pub cursor_row : ℤ
  pub cursor_col : ℤ
  pub alt_screen : Bool
  pub selection : Selection
  pub written : Bytes

-- `Terminal::writeInput`
abbrev pub write_input : Bytes → Surface → Surface
write_input sent s = record s { written = s.written ++ sent }

abbrev pub unselect : Surface → Surface
unselect s = record s { selection = clear_selection s.selection }

-- `\x7f`, which erases to the left, or `\x1b[3~`, which erases to the right.
abbrev pub delete_key : Bool → Bytes
delete_key backward = if backward then 127 ∷ [] else 27 ∷ codes "[3~"

-- The loops that write as many of them as the selection has characters, up to 200.
unfoldable pub erase_selected : Bool → Surface → Surface
unfolding repeat
erase_selected backward s =
    let count = get_selection_char_count s.view backward s.selection in
    if ltb 0 count && leb count 200 then write_input (repeat count (delete_key backward)) s else s

abbrev pub at_start : Surface → Bool
at_start s = is_cursor_at_selection_start s.view s.cursor_row s.cursor_col s.selection

abbrev pub at_end : Surface → Bool
at_end s = is_cursor_at_selection_end s.view s.cursor_row s.cursor_col s.selection

-- The part of `InsertImeText` and of `HandleImeSetPreviewText` that makes room for text.
unfoldable pub replace_selection : Surface → Surface
unfolding erase_selected
replace_selection s =
    if s.selection.active && not s.alt_screen && (at_end s || at_start s)
    then unselect (erase_selected (at_end s) s)
    else s

-- Shift with an arrow: the step of the selection, which starts at the cursor if there is none.
unfoldable pub select_step : ℤ → ℤ → Surface → Surface
unfolding start_selection extend_selection
select_step d_row d_col s =
    let started =
      if s.selection.active
      then s.selection
      else start_selection s.view s.cursor_row s.cursor_col false in
    record s { selection = extend_selection s.view d_row d_col started }
