-- ===== src/Screen/Steps/Valid.antt =====
-- Every operation of `TerminalState` keeps the screen valid and touches no cell outside the buffer.
use fish_term.Prelude.{
  ℕ, ◌<◌, ◌≡◌, ℤ, pos, Returns, Returns-mono, length-map, length-replicate, sym, ◌∙◌, ◌*◌, subst,
  suc, zero, negsuc, leb_ℤ, true, arith,
}
use fish_term.Screen.State.{Screen, IsValid, create, set_cursor}
use fish_term.Screen.Cell.{blank}
use fish_term.Screen.Erase.{clear, erase_in_line, erase_in_display}
use fish_term.Screen.Scroll.{scroll_up, scroll_down, set_scroll_region}
use fish_term.Screen.Frame.{Shows-IsValid}
use fish_term.Screen.Erase.Cells.{erase_in_line-cells, erase_in_display-cells}
use fish_term.Screen.Erase.Resize.{resize-IsValid}
use fish_term.Screen.Scroll.Cells.{ScrolledUp, scroll_up-ScrolledUp, scroll_down-cells}
use fish_term.Screen.Writing.Put.{
  put_char-IsValid, line_feed-IsValid, set_cell-IsValid, reverse_index-IsValid,
}
use fish_term.Screen.Writing.{new_line, carriage_return, backspace, tab}
use fish_term.Screen.Steps.{
  Call, clears, new_lines, carriage_returns, backspaces, tabs, line_feeds, reverse_indexes, puts,
  sets_cell, sets_cursor, sets_region, erases_line, erases_display, scrolls_up, scrolls_down,
  resizes, step, IsSafe,
}

set_cursor-IsValid : (row col : ℤ) (s : Screen) → IsValid s → IsValid (set_cursor row col s)
unfolding set_cursor
set_cursor-IsValid row col s v = ground arith

tab-IsValid : (s : Screen) → IsValid s → IsValid (tab s)
unfolding tab
tab-IsValid s v = ground arith

set_scroll_region-IsValid :
    (top bottom : ℤ) (s : Screen) → IsValid s → IsValid (set_scroll_region top bottom s)
unfolding set_scroll_region
set_scroll_region-IsValid top bottom s v = ground arith

backspace-IsValid : (s : Screen) → IsValid s → IsValid (backspace s)
unfolding backspace
backspace-IsValid s v = ground arith

carriage_return-IsValid : (s : Screen) → IsValid s → IsValid (carriage_return s)
unfolding carriage_return
carriage_return-IsValid s v = ground arith

clear-IsValid : (s : Screen) → IsValid s → IsValid (clear s)
unfolding clear
clear-IsValid s v = record {
  grid = record {
    cols_pos = v.cols_pos;
    rows_pos = v.rows_pos;
    size = length-map (λ _. blank) s.buffer ∙ v.size;
    region = v.region;
    region_inside = v.region_inside;
    max_nonneg = v.max_nonneg;
  };
  row_inside = v.rows_pos;
  col_inside = omega arith;
}

ScrolledUp-IsValid : (lines : ℕ) (s t : Screen) → IsValid s → ScrolledUp lines s t → IsValid t
ScrolledUp-IsValid lines s t v w = subst IsValid (sym w.frame) (record {
  grid = record {
    cols_pos = v.cols_pos;
    rows_pos = v.rows_pos;
    size = w.size;
    region = v.region;
    region_inside = v.region_inside;
    max_nonneg = v.max_nonneg;
  };
  row_inside = v.row_inside;
  col_inside = v.col_inside;
})

scroll_up-IsValid : (lines : ℤ) (s : Screen) → IsValid s → Returns (scroll_up lines s) IsValid
unfolding scroll_up
scroll_up-IsValid (negsuc n) s v = let e : leb_ℤ (negsuc n) (pos 0) ≡ true = ground arith in rw e v
scroll_up-IsValid (pos zero) s v = v
scroll_up-IsValid (pos (suc n)) s v =
    Returns-mono _ IsValid (scroll_up (pos (suc n)) s)
      (scroll_up-ScrolledUp (suc n) s v.grid (omega arith)) λ t. ScrolledUp-IsValid (suc n) s t v

scroll_down-IsValid : (lines : ℤ) (s : Screen) → IsValid s → Returns (scroll_down lines s) IsValid
unfolding scroll_down
scroll_down-IsValid (negsuc n) s v =
    let e : leb_ℤ (negsuc n) (pos 0) ≡ true = ground arith in rw e v
scroll_down-IsValid (pos zero) s v = v
scroll_down-IsValid (pos (suc n)) s v =
    Returns-mono _ IsValid (scroll_down (pos (suc n)) s)
      (scroll_down-cells (suc n) s v.grid (omega arith)) λ t. Shows-IsValid v

-- Every call that respects its conditions, on a valid screen, touches no cell outside the buffer,
-- ends, and leaves a valid screen.
pub step-IsValid :
    (call : Call) (s : Screen) → IsValid s → IsSafe call s → Returns (step call s) IsValid
unfolding step new_line
step-IsValid clears s v h = clear-IsValid s v
step-IsValid new_lines s v h =
    line_feed-IsValid (record s { cursor_col = 0 }) (ground arith) (omega arith)
step-IsValid carriage_returns s v h = carriage_return-IsValid s v
step-IsValid backspaces s v h = backspace-IsValid s v
step-IsValid tabs s v h = tab-IsValid s v
step-IsValid line_feeds s v h = line_feed-IsValid s v.grid v.col_inside
step-IsValid reverse_indexes s v h = reverse_index-IsValid s v
step-IsValid (puts codepoint) s v h = put_char-IsValid codepoint s v
step-IsValid (sets_cell row col codepoint attrs) s v h =
    set_cell-IsValid row col codepoint attrs s v
step-IsValid (sets_cursor row col) s v h = set_cursor-IsValid row col s v
step-IsValid (sets_region top bottom) s v h = set_scroll_region-IsValid top bottom s v
step-IsValid (erases_line mode) s v h =
    Returns-mono _ IsValid (erase_in_line mode s) (erase_in_line-cells mode s v h)
      λ t. Shows-IsValid v
step-IsValid (erases_display mode) s v h =
    Returns-mono _ IsValid (erase_in_display mode s) (erase_in_display-cells mode s v h)
      λ t. Shows-IsValid v
step-IsValid (scrolls_up lines) s v h = scroll_up-IsValid lines s v
step-IsValid (scrolls_down lines) s v h = scroll_down-IsValid lines s v
step-IsValid (resizes cols rows) s v h = resize-IsValid cols rows s v h.0 h.1

-- `TerminalState(cols, rows)` is valid for positive sizes.
create-IsValid : (cols rows : ℕ) → 0 < cols → 0 < rows → IsValid (create cols rows)
unfolding create
create-IsValid cols rows p q = record {
  grid = record {
    cols_pos = p;
    rows_pos = q;
    size = length-replicate (cols * rows) blank ∙ omega arith;
    region = omega arith;
    region_inside = omega arith;
    max_nonneg = omega arith;
  };
  row_inside = q;
  col_inside = omega arith;
}
