-- ===== src/Screen/Steps.antt =====
-- The operations of `TerminalState` as one step function, and what the class keeps true over any
-- sequence of them.
pub mod Valid
use fish_term.Prelude.{
  ℕ, ◌+◌, ◌<◌, ◌≡◌, refl, Option, some, List, [], ◌∷◌, ◌>>=◌, ℤ, pos, ◌≤ℤ◌, ◌⊎◌, Returns,
  Returns-bind, Returns-mono, length-map, length-replicate, sym, ◌∙◌, ◌*◌, subst, suc, zero, negsuc,
  leb_ℤ, true, arith,
}
use fish_term.Screen.State.{Screen, IsValid, create, set_cell, set_cursor}
use fish_term.Screen.Cell.{CellAttributes, blank}
use fish_term.Screen.Erase.{clear, erase_in_line, erase_in_display, resize}
use fish_term.Screen.Scroll.{scroll_up, scroll_down, set_scroll_region}
use fish_term.Screen.Frame.{Shows-IsValid}
use fish_term.Screen.Erase.Cells.{erase_in_line-cells, erase_in_display-cells}
use fish_term.Screen.Erase.Resize.{resize-IsValid}
use fish_term.Screen.Scroll.Cells.{ScrolledUp, scroll_up-ScrolledUp, scroll_down-cells}
use fish_term.Screen.Writing.Put.{
  put_char-IsValid, line_feed-IsValid, set_cell-IsValid, reverse_index-IsValid,
}
use fish_term.Screen.Writing.{
  put_char, new_line, carriage_return, backspace, tab, line_feed, reverse_index,
}

pub data Call : Type 0 where
  clears new_lines carriage_returns backspaces tabs line_feeds reverse_indexes : Call
  puts : ℕ → Call
  sets_cell : ℤ → ℤ → ℕ → CellAttributes → Call
  sets_cursor sets_region : ℤ → ℤ → Call
  erases_line erases_display scrolls_up scrolls_down : ℤ → Call
  resizes : ℕ → ℕ → Call

-- One call of a method that changes the display.
unfoldable pub step : Call → Screen → Option Screen
step clears s = some (clear s)
step new_lines s = new_line s
step carriage_returns s = some (carriage_return s)
step backspaces s = some (backspace s)
step tabs s = some (tab s)
step line_feeds s = line_feed s
step reverse_indexes s = reverse_index s
step (puts codepoint) s = put_char codepoint s
step (sets_cell row col codepoint attrs) s = set_cell row col codepoint attrs s
step (sets_cursor row col) s = some (set_cursor row col s)
step (sets_region top bottom) s = some (set_scroll_region top bottom s)
step (erases_line mode) s = erase_in_line mode s
step (erases_display mode) s = erase_in_display mode s
step (scrolls_up lines) s = scroll_up lines s
step (scrolls_down lines) s = scroll_down lines s
step (resizes cols rows) s = resize cols rows s

-- What a caller has to respect: new sizes are positive, and an erasure to the start of the line is
-- not asked for while the cursor stands past the last column.
abbrev pub IsSafe : Call → Screen → Type 0
IsSafe (erases_line mode) s = mode ≡ pos 1 → s.cursor_col < s.cols
IsSafe (erases_display mode) s = mode ≡ pos 1 → s.cursor_col < s.cols
IsSafe (resizes cols rows) s = (0 < cols) × (0 < rows)
IsSafe _ s = Unit
