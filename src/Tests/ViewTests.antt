-- ===== src/Tests/ViewTests.antt =====
-- Runs of the view of the scrollback.
use fish_term.Prelude.{
  ℕ, ◌+◌, ◌≤◌, ◌≡◌, refl, [], ◌∷◌, length, some, map, ℤ, pos, negsuc, replicate, arith,
}
use fish_term.Screen.Cell.{Cell, blank}
use fish_term.Screen.State.{Screen, create}
use fish_term.Screen.View.{visible_cell, scrolled, visible_cell-scrolled}

abbrev letter : ℕ → Cell
letter c = record blank { codepoint = c }

-- Four rows of one column, and one line of the scrollback, on display.
abbrev scrolled_back : Screen
scrolled_back = record (create 1 4) {
  buffer = letter b'a' ∷ letter b'b' ∷ letter b'c' ∷ letter b'd' ∷ [];
  scrollback = (letter b'z' ∷ []) ∷ [];
  view_offset = 1;
}

-- The row below the line of the scrollback shows the last row of the buffer, and not the first.
run_second_row : visible_cell scrolled_back 1 0 ≡ some (letter b'd')
unfolding visible_cell fish_term.Prelude.◌+ℤ◌ fish_term.Prelude.◌-ℤ◌ create
run_second_row = refl

run_third_row : visible_cell scrolled_back 2 0 ≡ some blank
unfolding visible_cell fish_term.Prelude.◌+ℤ◌ fish_term.Prelude.◌-ℤ◌ create
run_third_row = refl

visible_cell-scrolled_example : visible_cell scrolled_back 1 0 ≡ scrolled 1 scrolled_back 1 0
unfolding create
visible_cell-scrolled_example =
    visible_cell-scrolled 1 1 0 scrolled_back refl (omega arith) (omega arith) (omega arith)
