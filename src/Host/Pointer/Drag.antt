-- ===== src/Host/Pointer/Drag.antt =====
-- A drag of the mouse selects from the cell of the press to the last cell.
use fish_term.Prelude.{
  ℕ, ◌+◌, ◌≡◌, refl, ap, ◌∙◌, Bool, true, false, ◌&&◌, not, inl, inr, List, [], ◌∷◌, ◌==◌,
  if◌then◌else◌, ℤ, pos, ◌+ℤ◌, eqb_ℤ, Option-cases,
}
use fish_term.Terminal.Mouse.{Modes, report_mouse}
use fish_term.Terminal.Selection.{
  View, Selection, start_selection, update_selection, is_selection_at,
}
use fish_term.Host.Surface.{Surface, unselect}
use fish_term.Host.Pointer.{
  MouseEvent, Pointer, left_button, is_left, button_code, report, start_at, update_to, mouse_press,
  has_moved, start_drag, drag_surface, continue_drag, mouse_move, forward_move, mouse_release,
  reset_gesture, dispatch_mouse, release_here, press, move, release,
}

-- A report changes what is written only.
report-selection :
    (modes : Modes) (row col : ℤ) (button : ℕ) (down : Bool) (s : Surface)
    → ((report modes row col button down s).1.selection ≡ s.selection)
      × ((report modes row col button down s).1.view ≡ s.view)
unfolding report
report-selection modes row col button down s =
    elim (Option-cases (
      report_mouse (record modes { alt_screen = s.alt_screen }) s.view.cols s.view.rows
        (col +ℤ pos 1) (row +ℤ pos 1) button down)) [
          | inl silent ↦ rw (silent, report) (refl, refl)
          | inr (sent, e) ↦ rw (e, report) (refl, refl)
        ]

-- The selection from one cell to another.
abbrev pub drag_selection : View → ℤ → ℤ → Bool → ℤ → ℤ → Selection
drag_selection v from_row from_col app_owned row col =
    update_selection v row col (start_selection v from_row from_col app_owned)

-- A drag goes on: it is pressed and selecting, from a cell to a cell.
abbrev pub IsDragging : Pointer → View → ℤ → ℤ → ℤ → ℤ → Type 0
IsDragging p v from_row from_col row col =
    (p.selecting ≡ true)
    × (p.surface.view ≡ v)
    × (p.surface.selection ≡ drag_selection v from_row from_col p.forwarded row col)

drag_surface-selection :
    (modes : Modes) (e : MouseEvent) (forwarded : Bool) (from_row from_col : ℤ) (s : Surface)
    → (let t = drag_surface modes e forwarded from_row from_col s in
        (t.view ≡ s.view)
        × (t.selection ≡ drag_selection s.view from_row from_col forwarded e.row e.col))
unfolding drag_surface
drag_surface-selection modes e true from_row from_col s =
    let (same, view) =
      report-selection modes e.row e.col 32 true
        (update_to e.row e.col (start_at from_row from_col true s)) in
    (view, same)
drag_surface-selection modes e false from_row from_col s =
    let (same, view) = report-selection modes from_row from_col 3 false s in
    (view, ap (λ v. drag_selection v from_row from_col false e.row e.col) view)

continue_drag-selection :
    (modes : Modes) (e : MouseEvent) (code : ℕ) (down forwarded : Bool) (s : Surface)
    → (let t = continue_drag modes e code down forwarded s in
        (t.view ≡ s.view) × (t.selection ≡ update_selection s.view e.row e.col s.selection))
unfolding continue_drag
continue_drag-selection modes e code down true s =
    let (same, view) = report-selection modes e.row e.col code down (update_to e.row e.col s) in
    (view, same)
continue_drag-selection modes e code down false s = (refl, refl)

-- Only the last cell counts.
drag_again :
    (v : View) (from_row from_col a b c d : ℤ) (app_owned : Bool)
    → update_selection v c d (drag_selection v from_row from_col app_owned a b)
      ≡ drag_selection v from_row from_col app_owned c d
unfolding update_selection start_selection
drag_again v from_row from_col a b c d app_owned = refl

start-IsDragging :
    (modes : Modes) (e : MouseEvent) (p : Pointer) (v : View) (from_row from_col : ℤ)
    → p.surface.view ≡ v
    → p.press_row ≡ from_row
    → p.press_col ≡ from_col
    → IsDragging (start_drag modes e p) v from_row from_col e.row e.col
unfolding start_drag
start-IsDragging modes e p v from_row from_col view row col =
    let (kept, same) =
      drag_surface-selection modes e p.forwarded p.press_row p.press_col p.surface in
    (
      refl,
      kept ∙ view,
      same
          ∙ ap (λ w. drag_selection w p.press_row p.press_col p.forwarded e.row e.col) view
          ∙ ap (λ r. drag_selection v r p.press_col p.forwarded e.row e.col) row
          ∙ ap (λ c. drag_selection v from_row c p.forwarded e.row e.col) col,
    )

continue-eq :
    (modes : Modes) (e : MouseEvent) (code : ℕ) (down : Bool) (p : Pointer) (v : View)
    (from_row from_col row col : ℤ)
    → IsDragging p v from_row from_col row col
    → (let t = continue_drag modes e code down p.forwarded p.surface in
        (t.view ≡ v) × (t.selection ≡ drag_selection v from_row from_col p.forwarded e.row e.col))
continue-eq modes e code down p v from_row from_col row col (selecting, view, same) =
    let (kept, moved) = continue_drag-selection modes e code down p.forwarded p.surface in
    (
      kept ∙ view,
      moved
          ∙ ap (λ w. update_selection w e.row e.col p.surface.selection) view
          ∙ ap (update_selection v e.row e.col) same
          ∙ drag_again v from_row from_col row col e.row e.col p.forwarded,
    )

if_true {ℓ} : {A : Type ℓ} (a : Bool) (x y : A) → a ≡ true → (if a then x else y) ≡ x
if_true true x y e = refl
if_true false x y e = cc

if_false {ℓ} : {A : Type ℓ} (a : Bool) (x y : A) → a ≡ false → (if a then x else y) ≡ y
if_false true x y e = cc
if_false false x y e = refl

and_true : {a b : Bool} → a ≡ true → b ≡ true → a && b ≡ true
and_true e f = cc

move-IsDragging :
    (modes : Modes) (e : MouseEvent) (p : Pointer) (v : View) (from_row from_col row col : ℤ)
    → IsDragging p v from_row from_col row col
    → (IsDragging (mouse_move modes e p) v from_row from_col e.row e.col)
      × ((mouse_move modes e p).forwarded ≡ p.forwarded)
unfolding mouse_move
move-IsDragging modes e p v from_row from_col row col drag =
    let next =
      continue-eq modes e (32 + button_code e.button) true p v from_row from_col row col drag in
    rw
      (if_true p.selecting
        (record p {
          surface = continue_drag modes e (32 + button_code e.button) true p.forwarded p.surface;
        })
        (if p.pressed && (button_code e.button == 0 && has_moved e p)
          then start_drag modes e p
          else forward_move modes e p)
        drag.0)
      ((drag.0, next.0, next.1), refl)

unselect_if-view : (test : Bool) (s : Surface) → (if test then unselect s else s).view ≡ s.view
unselect_if-view true s = refl
unselect_if-view false s = refl

press-view :
    (modes : Modes) (e : MouseEvent) (p : Pointer)
    → (mouse_press modes e p).surface.view ≡ p.surface.view
unfolding mouse_press
press-view modes e p =
    unselect_if-view
      (is_left e.button
        && p.surface.selection.active
        && not (is_selection_at p.surface.view e.row e.col p.surface.selection))
      (report modes e.row e.col (button_code e.button) true p.surface).1
    ∙ (report-selection modes e.row e.col (button_code e.button) true p.surface).1

-- The first move to another cell, from a state in which the button is pressed.
first_move-IsDragging :
    (modes : Modes) (e : MouseEvent) (p : Pointer) (v : View) (from_row from_col : ℤ)
    → p.surface.view ≡ v
    → p.press_row ≡ from_row
    → p.press_col ≡ from_col
    → p.selecting ≡ false
    → p.pressed ≡ true
    → (button_code e.button == 0) && has_moved e p ≡ true
    → (IsDragging (mouse_move modes e p) v from_row from_col e.row e.col)
      × ((mouse_move modes e p).forwarded ≡ p.forwarded)
unfolding mouse_move start_drag
first_move-IsDragging modes e p v from_row from_col view row col idle pressed moved =
    rw
      (
        if_false p.selecting
            (record p {
              surface =
                  continue_drag modes e (32 + button_code e.button) true p.forwarded p.surface;
            })
            (if p.pressed && (button_code e.button == 0 && has_moved e p)
              then start_drag modes e p
              else forward_move modes e p)
            idle,
        if_true (p.pressed && (button_code e.button == 0 && has_moved e p)) (start_drag modes e p)
            (forward_move modes e p) (and_true pressed moved),
      )
      (start-IsDragging modes e p v from_row from_col view row col, refl)

-- Moves, one after another.
abbrev pub run_moves : Modes → List MouseEvent → Pointer → Pointer
run_moves modes [] p = p
run_moves modes (e ∷ es) p = run_moves modes es (dispatch_mouse modes move e p)

run_moves-IsDragging :
    (modes : Modes) (es : List MouseEvent) (p : Pointer) (v : View) (from_row from_col row col : ℤ)
    → IsDragging p v from_row from_col row col
    → (last_row : ℤ) × (last_col : ℤ) × (IsDragging
        (run_moves modes es p)
        v
        from_row
        from_col
        last_row
        last_col)
      × ((run_moves modes es p).forwarded ≡ p.forwarded)
unfolding dispatch_mouse
run_moves-IsDragging modes [] p v from_row from_col row col drag = (row, col, drag, refl)
run_moves-IsDragging modes (e ∷ es) p v from_row from_col row col drag =
    let (again, same) =
      move-IsDragging modes e (record p { cell_row = e.row +ℤ pos 1; cell_col = e.col +ℤ pos 1 }) v
        from_row from_col row col drag in
    let (last_row, last_col, rest, kept) =
      run_moves-IsDragging modes es (dispatch_mouse modes move e p) v from_row from_col e.row e.col
        again in
    (last_row, last_col, rest, kept ∙ same)

-- What a drag has selected when it ends: the button is no longer pressed, and the selection goes from
-- a cell to a cell.
abbrev pub IsSelected : Pointer → View → Bool → ℤ → ℤ → ℤ → ℤ → Type 0
IsSelected p v app_owned from_row from_col row col =
    (p.pressed ≡ false)
    × (p.selecting ≡ false)
    × (p.surface.selection ≡ drag_selection v from_row from_col app_owned row col)

release-IsSelected :
    (modes : Modes) (e : MouseEvent) (p : Pointer) (v : View) (from_row from_col row col : ℤ)
    → IsDragging p v from_row from_col row col
    → IsSelected (mouse_release modes e p) v p.forwarded from_row from_col e.row e.col
unfolding mouse_release
release-IsSelected modes e p v from_row from_col row col drag =
    let next = continue-eq modes e 3 false p v from_row from_col row col drag in
    rw
      (if_true p.selecting
        (reset_gesture (record p { surface = continue_drag modes e 3 false p.forwarded p.surface }))
        (let (sent, s) = report modes e.row e.col 3 false p.surface in
          if sent
          then reset_gesture (record p { surface = s })
          else reset_gesture (release_here e p))
        drag.0)
      (refl, refl, next.1)

-- A first move and the others behind it, from the state that a press leaves.
moved-IsSelected :
    (modes : Modes) (first up : MouseEvent) (moves : List MouseEvent) (p : Pointer) (v : View)
    (from_row from_col : ℤ)
    → p.surface.view ≡ v
    → p.press_row ≡ from_row
    → p.press_col ≡ from_col
    → p.selecting ≡ false
    → p.pressed ≡ true
    → (button_code first.button == 0) && has_moved first p ≡ true
    → IsSelected
        (dispatch_mouse modes release up (run_moves modes (first ∷ moves) p))
        v
        p.forwarded
        from_row
        from_col
        up.row
        up.col
unfolding dispatch_mouse
moved-IsSelected modes first up moves p v from_row from_col view row col idle pressed moved =
    let there : Pointer = record p {
      cell_row = first.row +ℤ pos 1;
      cell_col = first.col +ℤ pos 1;
    } in
    let (start, kept) =
      first_move-IsDragging modes first there v from_row from_col view row col idle pressed moved in
    let (last_row, last_col, drag, same) =
      run_moves-IsDragging modes moves (mouse_move modes first there) v from_row from_col first.row
        first.col start in
    let q = run_moves modes moves (mouse_move modes first there) in
    let (done, idle, selected) =
      release-IsSelected modes up
        (record q { cell_row = up.row +ℤ pos 1; cell_col = up.col +ℤ pos 1 }) v from_row from_col
        last_row last_col drag in
    (
      done,
      idle,
      selected
          ∙ ap (λ app_owned. drag_selection v from_row from_col app_owned up.row up.col)
              (same ∙ kept),
    )

-- A press, a first move to another cell with the left button, any more moves, and the release select
-- from the cell of the press to the cell of the release, whether or not the application has the mouse
-- and gets reports; the selection is marked as the application's if it got the press.
pub drag-IsSelected :
    (modes : Modes) (down first up : MouseEvent) (moves : List MouseEvent) (p : Pointer)
    → first.button ≡ left_button
    → eqb_ℤ first.row down.row && eqb_ℤ first.col down.col ≡ false
    → (let pressed = dispatch_mouse modes press down p in
        let dragged = run_moves modes (first ∷ moves) pressed in
        IsSelected
          (dispatch_mouse modes release up dragged)
          p.surface.view
          pressed.forwarded
          down.row
          down.col
          up.row
          up.col)
unfolding dispatch_mouse mouse_press
drag-IsSelected modes down first up moves p left moved =
    moved-IsSelected modes first up moves (dispatch_mouse modes press down p) p.surface.view
      down.row down.col
      (press-view modes down
        (record p { cell_row = down.row +ℤ pos 1; cell_col = down.col +ℤ pos 1 }))
      refl refl refl refl (and_true (ap (λ b. button_code b == 0) left) (ap not moved))
