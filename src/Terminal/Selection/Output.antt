-- ===== src/Terminal/Selection/Output.antt =====
-- What output does to the selection: where it is on display afterwards.
use fish_term.Screen.Selection.{Bounds, is_cell_selected}
use fish_term.Prelude.{
  leb, ◌||◌, Bool-cases, inl, inr, ◌∙◌, sym, ap, ℕ, ◌+◌, ◌≡◌, refl, Bool, true, ◌&&◌, not,
  if◌then◌else◌, ℤ, pos, ltb_ℤ, leb_ℤ, eqb_ℤ, max_ℤ, ◌+ℤ◌, ◌-ℤ◌, arith,
}
use fish_term.Terminal.Selection.{Selection, normalize, feed_selection}

-- Rows of the scrollback that are shifted with the top of the view compare as before.
shifted :
    (old_top new_top row : ℕ) (a : ℤ)
    → (ltb_ℤ (pos (new_top + row)) (a +ℤ (pos new_top -ℤ pos old_top))
        ≡ ltb_ℤ (pos (old_top + row)) a)
      × (ltb_ℤ (a +ℤ (pos new_top -ℤ pos old_top)) (pos (new_top + row))
          ≡ ltb_ℤ a (pos (old_top + row)))
      × (eqb_ℤ (pos (new_top + row)) (a +ℤ (pos new_top -ℤ pos old_top))
          ≡ eqb_ℤ (pos (old_top + row)) a)
unfolding ◌+ℤ◌ ◌-ℤ◌
shifted old_top new_top row a = ground arith

shifted_rows :
    (d a b : ℤ) → (ltb_ℤ (a +ℤ d) (b +ℤ d) ≡ ltb_ℤ a b) × (eqb_ℤ (a +ℤ d) (b +ℤ d) ≡ eqb_ℤ a b)
unfolding ◌+ℤ◌
shifted_rows d a b = ground arith

abbrev moved : ℤ → Selection → Selection
moved d s = record s { start_row = s.start_row +ℤ d; end_row = s.end_row +ℤ d }

abbrev moved_bounds : ℤ → Bounds → Bounds
moved_bounds d b = record b { start_row = b.start_row +ℤ d; end_row = b.end_row +ℤ d }

normalize-moved : (d : ℤ) (s : Selection) → normalize (moved d s) ≡ moved_bounds d (normalize s)
unfolding normalize
normalize-moved d s =
    let (earlier, level) = shifted_rows d s.start_row s.end_row in
    rw (earlier, level)
      (elim (Bool-cases
        (ltb_ℤ s.start_row s.end_row || eqb_ℤ s.start_row s.end_row && leb s.start_col s.end_col)) [
          | inl e ↦ rw e refl
          | inr e ↦ rw e refl
        ])

is_cell_selected-moved :
    (old_top new_top row : ℕ) (col : ℤ) (b : Bounds)
    → is_cell_selected true (moved_bounds (pos new_top -ℤ pos old_top) b) (pos (new_top + row)) col
      ≡ is_cell_selected true b (pos (old_top + row)) col
unfolding is_cell_selected
is_cell_selected-moved old_top new_top row col b =
    let (above, below, first) = shifted old_top new_top row b.start_row in
    let (above', below', last) = shifted old_top new_top row b.end_row in
    rw (above, below', first, last) refl

-- The selection after its rows are shifted, if it is not trimmed.
kept_place :
    (old_top new_top row : ℕ) (col : ℤ) (s : Selection)
    → is_cell_selected true
        (normalize (moved (pos new_top -ℤ pos old_top) s))
        (pos (new_top + row))
        col
      ≡ is_cell_selected true (normalize s) (pos (old_top + row)) col
kept_place old_top new_top row col s =
    ap (λ b. is_cell_selected true b (pos (new_top + row)) col)
      (normalize-moved (pos new_top -ℤ pos old_top) s)
    ∙ is_cell_selected-moved old_top new_top row col (normalize s)

-- Some row of a selection drawn downwards is in the scrollback after output.
abbrev pub is_kept : ℕ → ℤ → Selection → Bool
is_kept total max_scrollback s =
    let limit = if ltb_ℤ (pos 0) max_scrollback then max_scrollback else pos 10000 in
    leb_ℤ (max_ℤ (pos 0) (pos total -ℤ limit)) s.end_row && ltb_ℤ s.start_row (pos total)

-- The test of the code for a selection that is trimmed.
abbrev is_trimmed : ℕ → ℤ → Selection → Bool
is_trimmed total max_scrollback s =
    let limit = if ltb_ℤ (pos 0) max_scrollback then max_scrollback else pos 10000 in
    ltb_ℤ s.end_row (max_ℤ (pos 0) (pos total -ℤ limit)) || leb_ℤ (pos total) s.start_row

not_trimmed : (a b c d : ℤ) → not (ltb_ℤ a b || leb_ℤ c d) ≡ (leb_ℤ b a && ltb_ℤ d c)
not_trimmed a b c d = ground arith

kept_lem :
    (total : ℕ) (max_scrollback : ℤ) (s : Selection)
    → not (is_trimmed total max_scrollback s) ≡ is_kept total max_scrollback s
kept_lem total max_scrollback s =
    not_trimmed s.end_row
      (max_ℤ (pos 0)
        (pos total -ℤ (if ltb_ℤ (pos 0) max_scrollback then max_scrollback else pos 10000)))
      (pos total) s.start_row

-- Whatever the output does to the view, a selection is active afterwards if it was active and its end
-- row, shifted with the top of the view, is not above the rows that the scrollback keeps, and its
-- start row, shifted too, is above the end of the scrollback. If it is active, it marks the same
-- places of the display as before, at every row of the view and every column, however far the top of
-- the view has moved in the scrollback; otherwise it marks none.
pub feed_selection-is_cell_selected :
    (old_top new_top total row : ℕ) (max_scrollback col : ℤ) (s : Selection)
    → let after = feed_selection old_top new_top total max_scrollback s in
      (after.active
        ≡ (s.active && is_kept total max_scrollback (moved (pos new_top -ℤ pos old_top) s)))
      × (is_cell_selected after.active (normalize after) (pos (new_top + row)) col
          ≡ (after.active && is_cell_selected true (normalize s) (pos (old_top + row)) col))
unfolding feed_selection is_cell_selected normalize
feed_selection-is_cell_selected old_top new_top total row max_scrollback col s =
    let after = moved (pos new_top -ℤ pos old_top) s in
    elim (Bool-cases s.active) [
      | inr off ↦ rw off (refl, refl)
      | inl on ↦ elim (Bool-cases (is_trimmed total max_scrollback after)) [
        | inl lost ↦ rw (on, lost) (sym (ap not lost) ∙ kept_lem total max_scrollback after, refl)
        | inr held ↦
            rw (on, held)
              (
                sym (ap not held) ∙ kept_lem total max_scrollback after,
                kept_place old_top new_top row col s,
              )
      ]
    ]
