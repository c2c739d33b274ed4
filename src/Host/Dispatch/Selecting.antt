-- ===== src/Host/Dispatch/Selecting.antt =====
-- What Shift with an arrow key does.
use fish_term.Prelude.{◌<◌, ◌≡◌, refl, ap, ◌∙◌, Bool, true, false, some, if◌then◌else◌, ℤ, Bytes}
use fish_term.Terminal.Selection.{View, Selection, start_selection, extend_selection}
use fish_term.Host.Keys.{Key, Modifiers}
use fish_term.Host.Surface.{Surface, select_step}
use fish_term.Terminal.Selection.Ends.{IsOnDisplay, extend_selection-IsOnDisplay}
use fish_term.Host.Dispatch.{
  arrow_step, is_arrow, track_shift, dispatch_tracked, dispatch_on, KeyEvent, Host,
}

started-active :
    (s : Selection) (v : View) (row col : ℤ)
    → (if s.active then s else start_selection v row col false).active ≡ true
unfolding start_selection
started-active s v row col = go s.active s refl
  where
    go :
        (on : Bool) (t : Selection)
        → t.active ≡ on
        → (if on then t else start_selection v row col false).active ≡ true
    go true t e = e
    go false t e = refl

extend_selection-active :
    (v : View) (d_row d_col : ℤ) (s : Selection)
    → s.active ≡ true
    → (extend_selection v d_row d_col s).active ≡ true
unfolding extend_selection
extend_selection-active v d_row d_col s active = rw active refl

abbrev pub shift_only : Modifiers
shift_only = record { ctrl = false; alt = false; shift = true }

track_shift_arrow :
    (key : Key) (h : Host) (d_row d_col : ℤ)
    → arrow_step key ≡ some (d_row, d_col)
    → track_shift key shift_only h ≡ h
unfolding track_shift
track_shift_arrow key h d_row d_col step = rw (step, is_arrow) refl

dispatch_on_step :
    (sink : Bytes → Bool) (key_down caps_lock : Bool) (key : Key) (h : Host) (d_row d_col : ℤ)
    → arrow_step key ≡ some (d_row, d_col)
    → (let e : KeyEvent = record {
      key_down = key_down;
      key = key;
      modifiers = shift_only;
      caps_lock = caps_lock;
    } in
        dispatch_on sink e h ≡ (true, record h { surface = select_step d_row d_col h.surface }))
unfolding dispatch_on
dispatch_on_step sink key_down caps_lock key h d_row d_col step =
    let e : KeyEvent = record {
      key_down = key_down;
      key = key;
      modifiers = shift_only;
      caps_lock = caps_lock;
    } in
    let stepped : dispatch_tracked sink e h
        ≡ (true, record h { surface = select_step d_row d_col h.surface }) =
      rw (step, dispatch_tracked) refl in
    ap (dispatch_tracked sink e) (track_shift_arrow key h d_row d_col step) ∙ stepped

extended_lem :
    (v : View) (d_row d_col : ℤ) (s : Selection)
    → s.active ≡ true
    → 0 < v.rows
    → 0 < v.cols
    → ((extend_selection v d_row d_col s).active ≡ true)
      × IsOnDisplay v (extend_selection v d_row d_col s)
extended_lem v d_row d_col s active has_rows has_cols = (
  extend_selection-active v d_row d_col s active,
  (extend_selection-IsOnDisplay v d_row d_col false s has_rows has_cols active).2,
)

select_step-IsOnDisplay :
    (d_row d_col : ℤ) (s : Surface)
    → 0 < s.view.rows
    → 0 < s.view.cols
    → ((select_step d_row d_col s).selection.active ≡ true)
      × IsOnDisplay s.view (select_step d_row d_col s).selection
unfolding select_step
select_step-IsOnDisplay d_row d_col s has_rows has_cols =
    extended_lem s.view d_row d_col
      (if s.selection.active
        then s.selection
        else start_selection s.view s.cursor_row s.cursor_col false)
      (started-active s.selection s.view s.cursor_row s.cursor_col) has_rows has_cols

-- Shift with an arrow key, without Ctrl and Alt and on a display with rows and columns, is consumed
-- and leaves an active selection whose moved end is on the display. Nothing is sent.
pub dispatch_on-selects :
    (sink : Bytes → Bool) (key_down caps_lock : Bool) (key : Key) (h : Host) (d_row d_col : ℤ)
    → arrow_step key ≡ some (d_row, d_col)
    → 0 < h.surface.view.rows
    → 0 < h.surface.view.cols
    → (let e : KeyEvent = record {
      key_down = key_down;
      key = key;
      modifiers = shift_only;
      caps_lock = caps_lock;
    } in
        let (taken, after) = dispatch_on sink e h in
        (taken ≡ true)
        × (after.surface.selection.active ≡ true)
        × IsOnDisplay h.surface.view after.surface.selection
        × (after.surface.written ≡ h.surface.written)
        × (after.driver ≡ h.driver))
unfolding select_step
dispatch_on-selects sink key_down caps_lock key h d_row d_col step has_rows has_cols =
    let (active, shown) = select_step-IsOnDisplay d_row d_col h.surface has_rows has_cols in
    rw (dispatch_on_step sink key_down caps_lock key h d_row d_col step)
      (refl, active, shown, refl, refl)
