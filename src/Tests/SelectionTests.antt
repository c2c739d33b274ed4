-- ===== src/Tests/SelectionTests.antt =====
-- Runs of the selection, dragged backwards over two rows.
use fish_term.Prelude.{◌≡◌, refl, pos}
use fish_term.Screen.State.{Screen, create}
use fish_term.Screen.Selection.{
  Bounds, start_selection, update_selection, selection_bounds, dragged,
}

abbrev two_rows : Bounds
two_rows = record { start_row = pos 1; start_col = pos 3; end_row = pos 2; end_col = pos 1 }

run_dragged : selection_bounds (dragged (pos 2) (pos 1) (pos 1) (pos 3) (create 5 4)) ≡ two_rows
unfolding selection_bounds update_selection start_selection
run_dragged = refl

abbrev selecting : Screen
selecting = dragged (pos 2) (pos 1) (pos 1) (pos 3) (create 5 4)
