-- ===== src/Host/Pointer.antt =====
-- `DispatchMouseEvent` of napi_init.cpp: the mouse goes to the application, to the selection, to the
-- links or to the context menu.
pub mod Drag
use fish_term.Prelude.{
  ℕ, zero, suc, ◌+◌, ◌-◌, ◌%◌, ◌^◌, Bool, true, false, ◌&&◌, ◌||◌, not, List, [], ◌∷◌, ◌++◌, Option,
  none, some, ltb, leb, ◌==◌, min, if◌then◌else◌, ℤ, pos, pos_part, neg_part, ◌+ℤ◌, ltb_ℤ, eqb_ℤ,
  Bytes, decimal,
}
use fish_term.Terminal.Mouse.{Modes, report_mouse}
use fish_term.Terminal.Links.{get_link_at}
use fish_term.Terminal.Selection.{
  start_selection, update_selection, select_word_at, select_line_at, is_selection_at,
}
use fish_term.Host.Surface.{Surface, write_input, unselect}

pub data Button : Type 0 where
  left_button middle_button right_button other_button : Button

-- A mouse event with the cell of its point, its rounded point and the time in milliseconds.
pub record MouseEvent : Type 0 where
  pub button : Button
  pub row : ℤ
  pub col : ℤ
  pub x : ℤ
  pub y : ℤ
  pub now : ℕ

-- The fields of a host with a terminal that the handler reads or sets; `asked_ime` is whether it has
-- asked for the input method.
pub record Pointer : Type 0 where
  pub surface : Surface
  pub pressed : Bool
  pub selecting : Bool
  pub dragged : Bool
  pub had_selection : Bool
  pub on_selection : Bool
  pub forwarded : Bool
  pub press_row : ℤ
  pub press_col : ℤ
  pub click_row : ℤ
  pub click_col : ℤ
  pub click_count : ℕ
  pub click_time : ℕ
  pub cell_row : ℤ
  pub cell_col : ℤ
  pub link_activation : Bytes
  pub context_menu_request : Bytes
  pub asked_ime : Bool

abbrev pub is_left : Button → Bool
is_left left_button = true
is_left button = false

abbrev pub is_right : Button → Bool
is_right right_button = true
is_right button = false

-- `btn`
abbrev pub button_code : Button → ℕ
button_code middle_button = 1
button_code right_button = 2
button_code button = 0

-- `reportMouse` with the cell counted from 1, on a terminal with these modes: whether it has sent a
-- report, and the terminal.
unfoldable pub report : Modes → ℤ → ℤ → ℕ → Bool → Surface → Bool × Surface
report modes row col button down s =
    elim (report_mouse (record modes { alt_screen = s.alt_screen }) s.view.cols s.view.rows
      (col +ℤ pos 1) (row +ℤ pos 1) button down) [
        | none ↦ (false, s)
        | some sent ↦ (true, write_input sent s)
      ]

abbrev pub start_at : ℤ → ℤ → Bool → Surface → Surface
start_at row col app_owned s = record s { selection = start_selection s.view row col app_owned }

abbrev pub update_to : ℤ → ℤ → Surface → Surface
update_to row col s = record s { selection = update_selection s.view row col s.selection }

-- The fields that a release or a cancel resets.
abbrev pub reset_gesture : Pointer → Pointer
reset_gesture p = record p {
  pressed = false;
  selecting = false;
  dragged = false;
  had_selection = false;
  on_selection = false;
  forwarded = false;
}

-- `OH_NATIVEXCOMPONENT_MOUSE_PRESS`
unfoldable pub mouse_press : Modes → MouseEvent → Pointer → Pointer
mouse_press modes e p =
    let had = p.surface.selection.active in
    let on = is_selection_at p.surface.view e.row e.col p.surface.selection in
    let (forwarded, s) = report modes e.row e.col (button_code e.button) true p.surface in
    record p {
      surface = if is_left e.button && had && not on then unselect s else s;
      pressed = true;
      selecting = false;
      dragged = false;
      press_row = e.row;
      press_col = e.col;
      had_selection = had;
      on_selection = on;
      forwarded = forwarded;
    }

abbrev pub has_moved : MouseEvent → Pointer → Bool
has_moved e p = not (eqb_ℤ e.row p.press_row && eqb_ℤ e.col p.press_col)

-- The start of a drag: the selection from the pressed cell to the cell of the event. The application
-- that has the mouse gets the move, and otherwise a release.
unfoldable pub drag_surface : Modes → MouseEvent → Bool → ℤ → ℤ → Surface → Surface
drag_surface modes e forwarded press_row press_col s =
    if forwarded
    then (report modes e.row e.col 32 true
        (update_to e.row e.col (start_at press_row press_col true s))).1
    else update_to e.row e.col
        (start_at press_row press_col false (report modes press_row press_col 3 false s).1)

unfoldable pub start_drag : Modes → MouseEvent → Pointer → Pointer
start_drag modes e p = record p {
  surface = drag_surface modes e p.forwarded p.press_row p.press_col p.surface;
  selecting = true;
  dragged = true;
}

-- A move or the release of a drag.
unfoldable pub continue_drag : Modes → MouseEvent → ℕ → Bool → Bool → Surface → Surface
continue_drag modes e code down forwarded s =
    if forwarded
    then (report modes e.row e.col code down (update_to e.row e.col s)).1
    else update_to e.row e.col s

-- A move that only the application can want.
unfoldable pub forward_move : Modes → MouseEvent → Pointer → Pointer
forward_move modes e p =
    let code = if p.pressed then 32 + button_code e.button else 35 in
    let (sent, s) = report modes e.row e.col code true p.surface in
    if sent
    then record p { surface = s; forwarded = true }
    else if p.pressed && has_moved e p
    then record p {
      surface = update_to e.row e.col (start_at p.press_row p.press_col false s);
      selecting = true;
      dragged = true;
    }
    else record p { surface = s }

-- `OH_NATIVEXCOMPONENT_MOUSE_MOVE`
unfoldable pub mouse_move : Modes → MouseEvent → Pointer → Pointer
mouse_move modes e p =
    if p.selecting
    then record p {
      surface = continue_drag modes e (32 + button_code e.button) true p.forwarded p.surface;
    }
    else if p.pressed && (button_code e.button == 0 && has_moved e p)
    then start_drag modes e p
    else forward_move modes e p

-- The clicks on the same cell within `MULTI_CLICK_MS`, up to 3. Times are 64-bit numbers.
unfoldable pub next_click : MouseEvent → Pointer → ℕ
next_click e p =
    if ltb 0 p.click_count
      && (leb ((e.now + 2 ^ 64 - p.click_time) % 2 ^ 64) 400
          && (eqb_ℤ e.row p.click_row && eqb_ℤ e.col p.click_col))
    then min 3 (p.click_count + 1)
    else 1

-- `QueueLinkActivationAtPoint`
unfoldable pub queue_link_activation : MouseEvent → Pointer → Pointer
queue_link_activation e p = elim (get_link_at p.surface.view e.row e.col) [
  | [] ↦ p
  | b ∷ bs ↦ record p { link_activation = b ∷ bs }
]

-- What the count of clicks does.
unfoldable pub click : ℕ → MouseEvent → Pointer → Pointer
click count e p =
    let s = p.surface in
    let counted = record p {
      click_count = count;
      click_time = e.now;
      click_row = e.row;
      click_col = e.col;
    } in
    if count == 2
    then record counted {
      surface = record s { selection = select_word_at s.view e.row e.col s.selection };
    }
    else if leb 3 count
    then record counted {
      surface = record s { selection = select_line_at s.view e.row s.selection };
    }
    else if not (p.had_selection && not p.on_selection)
    then queue_link_activation e counted
    else counted

-- `std::to_string`
abbrev pub signed_decimal : ℤ → Bytes
signed_decimal v = if ltb_ℤ v (pos 0) then b'-' ∷ decimal (neg_part v) else decimal (pos_part v)

-- A release that the application does not get.
unfoldable pub release_here : MouseEvent → Pointer → Pointer
release_here e p =
    if is_right e.button
    then record p { context_menu_request = signed_decimal e.x ++ (b',' ∷ signed_decimal e.y) }
    else if p.pressed && is_left e.button
    then (if has_moved e p
        then record p { asked_ime = true }
        else click (next_click e p) e (record p { asked_ime = true }))
    else p

-- `OH_NATIVEXCOMPONENT_MOUSE_RELEASE`
unfoldable pub mouse_release : Modes → MouseEvent → Pointer → Pointer
mouse_release modes e p =
    let (sent, s) = report modes e.row e.col 3 false p.surface in
    if p.selecting
    then reset_gesture (record p { surface = continue_drag modes e 3 false p.forwarded p.surface })
    else if sent
    then reset_gesture (record p { surface = s })
    else reset_gesture (release_here e p)

-- The actions of a mouse.
pub data Action : Type 0 where
  press move release cancel no_action : Action

abbrev pub handle_mouse : Modes → Action → MouseEvent → Pointer → Pointer
handle_mouse modes press e p = mouse_press modes e p
handle_mouse modes move e p = mouse_move modes e p
handle_mouse modes release e p = mouse_release modes e p
handle_mouse modes cancel e p = reset_gesture p
handle_mouse modes no_action e p = p

-- `DispatchMouseEvent` of a host with a terminal and a renderer. The cell, counted from 1, is kept for
-- the wheel.
unfoldable pub dispatch_mouse : Modes → Action → MouseEvent → Pointer → Pointer
dispatch_mouse modes action e p =
    handle_mouse modes action e (record p { cell_row = e.row +ℤ pos 1; cell_col = e.col +ℤ pos 1 })
