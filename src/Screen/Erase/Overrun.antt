-- ===== src/Screen/Erase/Overrun.antt =====
-- `eraseInLine(1)` while the cursor stands past the last column, where `putChar` leaves it after a
-- full line: the loop condition `c <= m_cursorCol` writes one cell too many.
use fish_term.Prelude.{
  ℕ, zero, suc, ◌+◌, ◌*◌, ◌<◌, ◌≤◌, ◌≡◌, refl, ◌∙◌, ap, List, length, length-set, set, get_elem?,
  Option, none, some, pos, if◌then◌else◌, ltb, Bool-cases, inl, inr, Returns, Returns-mono, fill,
  fill_lem, store, for_range, Holds-self, mul_mono, in_span, arith,
}
use fish_term.Screen.Cell.{Cell, blank}
use fish_term.Screen.State.{Screen, IsValid, cell_at, with_buffer}
use fish_term.Screen.Frame.{Shows, Shows-with_buffer}
use fish_term.Screen.Erase.{erase_in_line}

-- A fill that runs past the end of the buffer faults.
fill_fault :
    {A : Type 0} (base n lo : ℕ) (v : A) (b : List A)
    → base + lo ≤ length b
    → length b < base + lo + n
    → fill base n lo v b ≡ none
unfolding fill for_range store
fill_fault base zero lo v b p q = absurd (omega arith)
fill_fault base (suc n) lo v b p q = elim (Bool-cases (ltb (base + lo) (length b))) [
  | inl on ↦ rw on (
      fill_fault base n (lo + 1) v (set b (base + lo) v)
        (ground (arith, length-set b (base + lo) v)) (ground (arith, length-set b (base + lo) v)))
  | inr off ↦ rw off
]

-- On the last row that cell lies outside the buffer.
pub erase_in_line-fault :
    (s : Screen)
    → IsValid s
    → s.cursor_col ≡ s.cols
    → s.cursor_row + 1 ≡ s.rows
    → erase_in_line (pos 1) s ≡ none
unfolding erase_in_line
erase_in_line-fault s v p q =
    let full : s.rows * s.cols ≡ s.cursor_row * s.cols + s.cols = rw (← q) (omega arith) in
    rw (
      fill_fault (s.cursor_row * s.cols) (s.cursor_col + 1) 0 blank s.buffer
        (omega (arith, v.size, full)) (omega (arith, v.size, full)))

-- On any other row it is the first cell of the row below, which is blanked too.
pub erase_in_line_overruns :
    (s : Screen)
    → IsValid s
    → s.cursor_col ≡ s.cols
    → s.cursor_row + 1 < s.rows
    → Returns (erase_in_line (pos 1) s) (λ t. cell_at t (s.cursor_row + 1) 0 ≡ some blank)
unfolding erase_in_line
erase_in_line_overruns s v p q =
    Returns-mono (Shows span s) _ (with_buffer s (fill base (s.cursor_col + 1) 0 blank s.buffer))
      (Shows-with_buffer _ span s _ (λ r c a b. refl)
        (fill_lem base (s.cursor_col + 1) 0 (s.cursor_col + 1) blank s.buffer
          (Holds-self s.buffer v.size) (omega arith)
          (omega (arith, mul_mono (s.cursor_row + 2) s.rows s.cols (omega arith)))))
      λ t w.
        let same : t.cols ≡ s.cols = ap (λ (x : Screen). x.cols) w.frame in
        rw same (w.cells (s.cursor_row + 1) 0 q v.cols_pos ∙ ground (arith, v.cols_pos))
  where
    base : ℕ
    base = s.cursor_row * s.cols

    span : ℕ → ℕ → Option Cell
    span r c =
        if in_span (base + 0) (base + (s.cursor_col + 1)) (r * s.cols + c)
        then some blank
        else get_elem? s.buffer (r * s.cols + c)
