-- ===== src/Tests/ScreenTests.antt =====
-- `TerminalState` on a display of three rows of three letters.
use fish_term.Prelude.{
  ℕ, ◌≡◌, refl, List, [], ◌∷◌, map, Option, none, some, pos, Returns, arith, for_range, for_down,
  store, ◌&&◌, fill, ◌==◌,
}
use fish_term.Screen.Cell.{Cell, blank}
use fish_term.Screen.State.{Screen, IsGrid, IsValid, create, set_cell, write_cell}
use fish_term.Screen.Frame.{Shows}
use fish_term.Screen.Erase.{erase_in_line, erase_in_display, resize, copy_overlap}
use fish_term.Screen.Erase.Cells.{
  blanked, in_line, in_display, erase_in_line-cells, erase_in_display-cells,
}
use fish_term.Screen.Erase.Resize.{Resized, resize-Resized}
use fish_term.Screen.Erase.Overrun.{erase_in_line-fault}
use fish_term.Screen.Scroll.{
  scroll_up, scroll_down, save_lines, read_row, add_line_to_scrollback, trim, shift_up, shift_down,
}
use fish_term.Screen.Scroll.Cells.{ScrolledUp, scroll_up-ScrolledUp, scroll_down-cells, moved_down}
use fish_term.Screen.Writing.{put_char, line_feed}
use fish_term.Screen.Writing.Cells.{LineFed, line_feed-LineFed}
use fish_term.Screen.Writing.Put.{Put, put_char-Put}
use fish_term.Screen.Steps.{puts, step}
use fish_term.Screen.Steps.Valid.{step-IsValid}
use fish_term.Screen.Rows.{blank_rows, rows_up, rows_down, copy_row}

abbrev letter : ℕ → Cell
letter c = record blank { codepoint = c }

abbrev letters : List Cell
letters =
    letter b'a'
    ∷ letter b'b'
    ∷ letter b'c'
    ∷ letter b'd'
    ∷ letter b'e'
    ∷ letter b'f'
    ∷ letter b'g'
    ∷ letter b'h'
    ∷ letter b'i'
    ∷ []

-- The cursor stands in the middle.
abbrev demo : Screen
demo = record (create 3 3) {
  cols = 3;
  rows = 3;
  buffer = letters;
  cursor_row = 1;
  cursor_col = 1;
  scroll_top = 0;
  scroll_bottom = 2;
  max_scrollback = pos 2;
}

abbrev at_end : Screen
at_end = record demo { cursor_col = 3 }

abbrev at_last : Screen
at_last = record demo { cursor_row = 2; cursor_col = 3 }

demo-IsGrid : IsGrid demo
demo-IsGrid = omega arith

demo-IsValid : IsValid demo
demo-IsValid = omega arith

at_end-IsValid : IsValid at_end
at_end-IsValid = omega arith

at_last-IsGrid : IsGrid at_last
at_last-IsGrid = omega arith

at_last-IsValid : IsValid at_last
at_last-IsValid = omega arith

codepoints : Option Screen → List ℕ
codepoints none = []
codepoints (some s) = map (λ c. c.codepoint) s.buffer

saved_codepoints : Option Screen → List (List ℕ)
saved_codepoints none = []
saved_codepoints (some s) = map (map (λ c. c.codepoint)) s.scrollback

-- The first row leaves for the scrollback.
scroll_up_run :
    (codepoints (scroll_up (pos 1) demo)
      ≡ b'd' ∷ b'e' ∷ b'f' ∷ b'g' ∷ b'h' ∷ b'i' ∷ b' ' ∷ b' ' ∷ b' ' ∷ [])
    × (saved_codepoints (scroll_up (pos 1) demo) ≡ (b'a' ∷ b'b' ∷ b'c' ∷ []) ∷ [])
unfolding codepoints saved_codepoints scroll_up save_lines read_row add_line_to_scrollback trim
    shift_up rows_up copy_row blank_rows fill for_range store blank create
scroll_up_run = (refl, refl)

scroll_down_run :
    codepoints (scroll_down (pos 2) demo)
    ≡ b' ' ∷ b' ' ∷ b' ' ∷ b' ' ∷ b' ' ∷ b' ' ∷ b'a' ∷ b'b' ∷ b'c' ∷ []
unfolding codepoints scroll_down shift_down rows_down copy_row blank_rows fill for_range for_down
    store blank create
scroll_down_run = refl

put_char_run :
    codepoints (put_char b'z' at_end)
    ≡ b'a' ∷ b'b' ∷ b'c' ∷ b'd' ∷ b'e' ∷ b'f' ∷ b'z' ∷ b'h' ∷ b'i' ∷ []
unfolding codepoints put_char line_feed set_cell write_cell store blank create
put_char_run = refl

-- One cell of the row below is lost.
erase_in_line_run :
    codepoints (erase_in_line (pos 1) at_end)
    ≡ b'a' ∷ b'b' ∷ b'c' ∷ b' ' ∷ b' ' ∷ b' ' ∷ b' ' ∷ b'h' ∷ b'i' ∷ []
unfolding codepoints erase_in_line fill for_range store blank create
erase_in_line_run = refl

resize_run :
    codepoints (resize 2 4 demo) ≡ b'a' ∷ b'b' ∷ b'd' ∷ b'e' ∷ b'g' ∷ b'h' ∷ b' ' ∷ b' ' ∷ []
unfolding codepoints resize copy_overlap for_range store blank create
resize_run = refl

step-IsValid_example : Returns (step (puts b'z') at_end) IsValid
step-IsValid_example = step-IsValid (puts b'z') at_end at_end-IsValid tt

scroll_up-ScrolledUp_example : Returns (scroll_up (pos 2) demo) (ScrolledUp 2 demo)
scroll_up-ScrolledUp_example = scroll_up-ScrolledUp 2 demo demo-IsGrid (omega arith)

scroll_down-cells_example : Returns (scroll_down (pos 1) demo) (Shows (moved_down 1 demo) demo)
scroll_down-cells_example = scroll_down-cells 1 demo demo-IsGrid (omega arith)

line_feed-LineFed_example : Returns (line_feed at_last) (LineFed at_last)
line_feed-LineFed_example = line_feed-LineFed at_last at_last-IsGrid

put_char-Put_example : Returns (put_char b'z' demo) (Put b'z' demo)
put_char-Put_example = put_char-Put b'z' demo demo-IsValid (omega arith)

erase_in_line-cells_example :
    Returns
      (erase_in_line (pos 1) demo)
      (Shows (blanked (λ r c. r == 1 && in_line (pos 1) demo c) demo) demo)
erase_in_line-cells_example = erase_in_line-cells (pos 1) demo demo-IsValid (λ _. omega arith)

erase_in_display-cells_example :
    Returns (erase_in_display (pos 1) demo) (Shows (blanked (in_display (pos 1) demo) demo) demo)
erase_in_display-cells_example = erase_in_display-cells (pos 1) demo demo-IsValid (λ _. omega arith)

resize-Resized_example : Returns (resize 2 4 demo) (Resized 2 4 demo)
resize-Resized_example = resize-Resized 2 4 demo demo-IsGrid (omega arith) (omega arith)

erase_in_line-fault_example : erase_in_line (pos 1) at_last ≡ none
erase_in_line-fault_example = erase_in_line-fault at_last at_last-IsValid refl refl
