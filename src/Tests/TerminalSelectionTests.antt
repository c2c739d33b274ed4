-- ===== src/Tests/TerminalSelectionTests.antt =====
-- Runs of the selection of terminal.cpp on a small display, and the theorems applied at it.
use fish_term.Prelude.{
  ℕ, ◌&&◌, ◌+◌, ◌≤◌, ◌<◌, ◌≡◌, refl, true, false, List, [], ◌∷◌, ℤ, pos, negsuc, ◌+ℤ◌, ◌-ℤ◌, arith,
}
use fish_term.Utf8.{utf8}
use fish_term.Terminal.Cells.{narrow, wide, spacer_tail, VtCell, kind_at, word_start, word_end}
use fish_term.Terminal.Selection.{
  View, Selection, normalize, clamp_index, start_selection, update_selection, extend_selection,
  row_selection, select_word_at, select_line_at, feed_selection, is_selection_at, get_selected_text,
}
use fish_term.Prelude.{codes, Bool}
use fish_term.Terminal.Selection.Count.{
  is_cursor_at_selection_start, is_cursor_at_selection_end, get_selection_char_count,
}
use fish_term.Terminal.Selection.Words.{IsRun, select_word_at-IsRun}
use fish_term.Terminal.Selection.Ends.{
  swap, IsOnDisplay, get_selected_text-swap, extend_selection-IsOnDisplay,
}
use fish_term.Terminal.Selection.Output.{is_kept, feed_selection-is_cell_selected}
use fish_term.Screen.Selection.{is_cell_selected}

abbrev letter : ℕ → VtCell
letter c = record { codepoint = c; width = narrow; has_text = true }

-- `ab c`, a wide character in columns 4 and 5, and a row with `x`.
abbrev first_row : List VtCell
first_row =
    letter b'a'
    ∷ letter b'b'
    ∷ letter b' '
    ∷ letter b'c'
    ∷ (record { codepoint = 0x4E2D; width = wide; has_text = true })
    ∷ (record { codepoint = 0; width = spacer_tail; has_text = false })
    ∷ []

abbrev display : View
display = record { cols = 6; rows = 2; top = 10; grid = first_row ∷ (letter b'x' ∷ []) ∷ [] }

-- From column 1 of the first row to the second row.
abbrev dragged : Selection
dragged = record {
  active = true;
  app_owned = false;
  start_row = pos 10;
  start_col = 1;
  end_row = pos 11;
  end_col = 0;
}

selected_text :
    get_selected_text display dragged ≡ b'b' ∷ b' ' ∷ b'c' ∷ 0xE4 ∷ 0xB8 ∷ 0xAD ∷ 10 ∷ b'x' ∷ []
unfolding get_selected_text utf8
selected_text = refl

double_click : select_word_at display (pos 0) (pos 1) dragged ≡ row_selection 10 0 1
unfolding select_word_at word_start word_end kind_at
double_click = refl

triple_click : select_line_at display (pos 0) dragged ≡ row_selection 10 0 4
unfolding select_line_at
triple_click = refl

-- A step to the right onto the wide character takes the column behind it.
step_right : extend_selection display (pos 0) (pos 1) (row_selection 10 0 3) ≡ row_selection 10 0 5
unfolding extend_selection ◌+ℤ◌ ◌-ℤ◌
step_right = refl

select_word_at-IsRun_example :
    (from : ℕ) × (to : ℕ) × (select_word_at display (pos 0) (pos 1) dragged
      ≡ row_selection (10 + clamp_index (pos 0) 2) from to)
    × (from ≤ clamp_index (pos 1) 6)
    × (clamp_index (pos 1) 6 ≤ to)
    × (to < 6)
    × IsRun first_row (kind_at first_row (clamp_index (pos 1) 6)) 6 from to
unfolding clamp_index
select_word_at-IsRun_example =
    select_word_at-IsRun display (pos 0) (pos 1) dragged first_row (omega arith) (omega arith) refl

-- The space of `ab c` is selected, but not counted.
run_count :
    (get_selection_char_count display false (row_selection 10 0 3) ≡ 3)
    × (get_selected_text display (row_selection 10 0 3) ≡ codes "ab c")
unfolding get_selection_char_count get_selected_text utf8 ◌-ℤ◌
run_count = (refl, refl)

get_selected_text-swap_example :
    (get_selected_text display (swap dragged) ≡ get_selected_text display dragged)
    × ((exclude_end : Bool)
        → get_selection_char_count display exclude_end (swap dragged)
          ≡ get_selection_char_count display exclude_end dragged)
    × ((row col : ℤ)
        → (is_selection_at display row col (swap dragged) ≡ is_selection_at display row col dragged)
          × (is_cursor_at_selection_start display row col (swap dragged)
              ≡ is_cursor_at_selection_start display row col dragged)
          × (is_cursor_at_selection_end display row col (swap dragged)
              ≡ is_cursor_at_selection_end display row col dragged))
get_selected_text-swap_example = get_selected_text-swap display dragged

extend_selection-IsOnDisplay_example :
    IsOnDisplay display (start_selection display (negsuc 4) (pos 9) false)
    × IsOnDisplay display (update_selection display (negsuc 4) (pos 9) dragged)
    × IsOnDisplay display (extend_selection display (negsuc 4) (pos 9) dragged)
extend_selection-IsOnDisplay_example =
    extend_selection-IsOnDisplay display (negsuc 4) (pos 9) false dragged (omega arith)
      (omega arith) refl

-- The view scrolls on by three rows, and the selection with it, onto other text.
abbrev fed : Selection
fed = feed_selection 10 13 15 (pos 10000) dragged

feed_selection_run : fed ≡ record dragged { start_row = pos 13; end_row = pos 14 }
unfolding feed_selection ◌+ℤ◌ ◌-ℤ◌
feed_selection_run = refl

-- A selection drawn upwards goes as soon as its upper row is trimmed.
upwards_trimmed : (feed_selection 10 10 15 (pos 4) (swap dragged)).active ≡ false
unfolding feed_selection ◌+ℤ◌ ◌-ℤ◌
upwards_trimmed = refl

downwards_kept : (feed_selection 10 10 15 (pos 4) dragged).active ≡ true
unfolding feed_selection ◌+ℤ◌ ◌-ℤ◌
downwards_kept = refl

feed_selection-is_cell_selected_example :
    let after = feed_selection 10 13 15 (pos 10000) dragged in
    (after.active ≡ (
      dragged.active
      && is_kept 15 (pos 10000) (record dragged {
        start_row = dragged.start_row +ℤ (pos 13 -ℤ pos 10);
        end_row = dragged.end_row +ℤ (pos 13 -ℤ pos 10);
      })))
    × (is_cell_selected after.active (normalize after) (pos (13 + 1)) (pos 0)
        ≡ (after.active && is_cell_selected true (normalize dragged) (pos (10 + 1)) (pos 0)))
feed_selection-is_cell_selected_example =
    feed_selection-is_cell_selected 10 13 15 1 (pos 10000) (pos 0) dragged
