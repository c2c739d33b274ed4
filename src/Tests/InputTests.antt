-- ===== src/Tests/InputTests.antt =====
-- Runs of the key and the mouse handlers on a small display, and the theorems applied at it.
use fish_term.Prelude.{
  ℕ, ◌≡◌, refl, Bool, true, false, [], ◌∷◌, ℤ, pos, negsuc, ◌+ℤ◌, ◌-ℤ◌, none, Bytes, codes, decimal,
  arith,
}
use fish_term.Terminal.Cells.{narrow, VtCell}
use fish_term.Terminal.Mouse.{Modes, report_mouse, has_tracking, sgr_report, clamp_cell}
use fish_term.Terminal.Selection.{View, Selection, is_selection_at}
use fish_term.Terminal.Selection.Count.{
  is_cursor_at_selection_start, is_cursor_at_selection_end, get_selection_char_count,
}
use fish_term.Screen.Selection.{is_cell_selected}
use fish_term.Terminal.Selection.Ends.{IsOnDisplay}
use fish_term.Host.Keys.{letter, dpad_right, del, Modifiers, build_key_sequence}
use fish_term.Host.Surface.{Surface}
use fish_term.Host.Dispatch.{KeyEvent, Host, dispatch_on, dispatch_key, arrow_step}
use fish_term.Host.Dispatch.Selecting.{shift_only, dispatch_on-selects}
use fish_term.Host.Pointer.{
  MouseEvent, Pointer, left_button, right_button, press, release, dispatch_mouse, mouse_press,
  mouse_release, release_here, report,
}
use fish_term.Host.Pointer.Drag.{run_moves, IsSelected, drag-IsSelected}

abbrev cell : ℕ → VtCell
cell c = record { codepoint = c; width = narrow; has_text = true }

-- `abc` in the first of two rows.
abbrev display : View
display = record {
  cols = 6;
  rows = 2;
  top = 10;
  grid = (cell b'a' ∷ cell b'b' ∷ cell b'c' ∷ []) ∷ [] ∷ [];
}

-- `bc`, up to the cursor behind it.
abbrev selected : Selection
selected = record {
  active = true;
  app_owned = false;
  start_row = pos 10;
  start_col = 1;
  end_row = pos 10;
  end_col = 3;
}

abbrev surface : Surface
surface = record {
  view = display;
  cursor_row = pos 0;
  cursor_col = pos 3;
  alt_screen = false;
  selection = selected;
  written = [];
}

abbrev host : Host
host = record {
  surface = surface;
  shift_held = false;
  preview = 0;
  copy_request = false;
  paste_request = false;
  driver = [];
}

abbrev no_sink : Bytes → Bool
no_sink sequence = false

abbrev plain : Modifiers
plain = record { ctrl = false; alt = false; shift = false }

abbrev backspace : KeyEvent
backspace = record { key_down = true; key = del; modifiers = plain; caps_lock = false }

abbrev key_x : KeyEvent
key_x = record { key_down = true; key = letter 23; modifiers = plain; caps_lock = false }

-- Backspace erases the two characters, and a letter takes their place.
backspace_erases : (dispatch_key no_sink backspace host none).1.0.surface.written ≡ 127 ∷ 127 ∷ []
unfolding dispatch_key build_key_sequence is_cursor_at_selection_start is_cursor_at_selection_end
    get_selection_char_count ◌+ℤ◌ ◌-ℤ◌
backspace_erases = refl

letter_replaces : (dispatch_key no_sink key_x host none).1.0.surface.written ≡ 127 ∷ 127 ∷ b'x' ∷ []
unfolding dispatch_key build_key_sequence is_cursor_at_selection_start is_cursor_at_selection_end
    get_selection_char_count ◌+ℤ◌ ◌-ℤ◌
letter_replaces = refl

abbrev shift_right : KeyEvent
shift_right = record {
  key_down = true;
  key = dpad_right;
  modifiers = shift_only;
  caps_lock = false;
}

dispatch_on-selects_example :
    (let (taken, after) = dispatch_on no_sink shift_right host in
      (taken ≡ true)
      × (after.surface.selection.active ≡ true)
      × IsOnDisplay display after.surface.selection
      × (after.surface.written ≡ [])
      × (after.driver ≡ []))
unfolding arrow_step
dispatch_on-selects_example =
    dispatch_on-selects no_sink true false dpad_right host (pos 0) (pos 1) refl (ground arith)
      (ground arith)

-- A terminal whose application has asked for the mouse.
abbrev modes : Modes
modes = record {
  alt_screen = false;
  app_cursor_keys = false;
  mouse_tracking = true;
  mode_1000 = true;
  mode_1002 = false;
  mode_1003 = false;
  sgr_mouse = true;
}

abbrev pointer : Pointer
pointer = record {
  surface = record surface { alt_screen = true };
  pressed = false;
  selecting = false;
  dragged = false;
  had_selection = false;
  on_selection = false;
  forwarded = false;
  press_row = pos 0;
  press_col = pos 0;
  click_row = negsuc 0;
  click_col = negsuc 0;
  click_count = 0;
  click_time = 0;
  cell_row = pos 1;
  cell_col = pos 1;
  link_activation = [];
  context_menu_request = [];
  asked_ime = false;
}

abbrev at : ℤ → ℤ → MouseEvent
at row col = record {
  button = left_button;
  row = row;
  col = col;
  x = pos 7;
  y = negsuc 2;
  now = 1000;
}

-- The application gets the press.
press_reports :
    (dispatch_mouse modes press (at (pos 0) (pos 1)) pointer).surface.written
    ≡ 27 ∷ codes "[<0;2;1M"
unfolding dispatch_mouse mouse_press report report_mouse has_tracking sgr_report decimal clamp_cell
    is_selection_at is_cell_selected ◌+ℤ◌
press_reports = refl

abbrev silent : Modes
silent = record modes { mouse_tracking = false; mode_1000 = false }

-- Without reports a right click asks for the context menu.
right_click :
    (dispatch_mouse silent release
      (record (at (pos 0) (pos 1)) { button = right_button })
      pointer).context_menu_request
    ≡ codes "7,-3"
unfolding dispatch_mouse mouse_release report report_mouse release_here decimal
right_click = refl

drag-IsSelected_example :
    (let pressed = dispatch_mouse modes press (at (pos 0) (pos 1)) pointer in
      let dragged = run_moves modes (at (pos 0) (pos 2) ∷ at (pos 1) (pos 4) ∷ []) pressed in
      IsSelected
        (dispatch_mouse modes release (at (pos 1) (pos 5)) dragged)
        display
        pressed.forwarded
        (pos 0)
        (pos 1)
        (pos 1)
        (pos 5))
drag-IsSelected_example =
    drag-IsSelected modes (at (pos 0) (pos 1)) (at (pos 0) (pos 2)) (at (pos 1) (pos 5))
      (at (pos 1) (pos 4) ∷ []) pointer refl refl
