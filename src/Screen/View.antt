-- ===== src/Screen/View.antt =====
-- The view of the scrollback: `scrollView`, `resetViewScroll` and, cell by cell and before the marks
-- of the selection, `getVisibleBuffer`.
use fish_term.Prelude.{
  ℕ, ◌+◌, ◌-◌, ◌*◌, ◌≤◌, ◌<◌, ◌≡◌, false, List, length, get_elem?, Option, none, some, ◌>>=◌,
  Bool-cases, inl, inr, ℤ, pos, negsuc, pos_part, ◌+ℤ◌, ◌-ℤ◌, min_ℤ, max_ℤ, min, ltb, ◌==◌,
  if◌then◌else◌, arith,
}
use fish_term.Screen.Cell.{Cell, blank}
use fish_term.Screen.State.{Screen, inside, cell_at}

-- `scrollView`
unfoldable pub scroll_view : ℤ → Screen → Screen
scroll_view delta s = record s {
  view_offset =
      pos_part (max_ℤ (pos 0) (min_ℤ (pos s.view_offset +ℤ delta) (pos (length s.scrollback))));
}

-- `c < line.size() ? line[c] : Cell()`
abbrev pub line_cell : List Cell → ℕ → Cell
line_cell line c = elim (get_elem? line c) [ none ↦ blank | some cell ↦ cell ]

-- The element of an integer index that the code has checked.
abbrev pub element {ℓ} : {A : Type ℓ} → List A → ℤ → Option A
element xs (pos i) = get_elem? xs i
element xs (negsuc i) = none

-- The rows of the loop that lie in the buffer: `bufferRow`.
abbrev pub buffer_row : Screen → ℕ → ℤ
buffer_row s r =
    let lines = min s.view_offset s.rows in (pos r -ℤ pos lines) +ℤ (pos s.rows -ℤ pos lines)

abbrev pub history_index : Screen → ℕ → ℤ
history_index s r = (pos (length s.scrollback) -ℤ pos s.view_offset) +ℤ pos r

-- The cell that `getVisibleBuffer` assigns to a place of the display.
unfoldable pub visible_cell : Screen → ℕ → ℕ → Option Cell
visible_cell s r c =
    if s.view_offset == 0
    then cell_at s r c
    else (if inside (history_index s r) (length s.scrollback)
        then (element s.scrollback (history_index s r) >>= λ line. some (line_cell line c))
        else (if inside (buffer_row s r) s.rows
            then cell_at s (pos_part (buffer_row s r)) c
            else some blank))

-- The view stays inside the scrollback.
pub scroll_view-bound :
    (delta : ℤ) (s : Screen) → (scroll_view delta s).view_offset ≤ length s.scrollback
unfolding scroll_view
scroll_view-bound delta s = ground arith

-- Scrolled back by `k` lines: the last `k` lines of the scrollback, then the last rows of the buffer,
-- at most `k` of them, then blank rows.
abbrev pub scrolled : ℕ → Screen → ℕ → ℕ → Option Cell
scrolled k s r c =
    if ltb r k
    then (get_elem? s.scrollback (length s.scrollback - k + r) >>= λ line. some (line_cell line c))
    else (if ltb r (2 * k) then cell_at s (s.rows + r - 2 * k) c else some blank)

history_index_lem :
    (k r : ℕ) (s : Screen)
    → s.view_offset ≡ k
    → k ≤ length s.scrollback
    → history_index s r ≡ pos (length s.scrollback - k + r)
unfolding ◌+ℤ◌ ◌-ℤ◌
history_index_lem k r s e h = ground arith

buffer_row_lem :
    (k r : ℕ) (s : Screen)
    → s.view_offset ≡ k
    → k ≤ r
    → r < s.rows
    → buffer_row s r ≡ pos (s.rows + r - 2 * k)
unfolding ◌+ℤ◌ ◌-ℤ◌
buffer_row_lem k r s e p q = ground arith

-- A view scrolled back by `k` lines of the scrollback, one or more, shows them from the first row on,
-- below them the last rows of the buffer, at most `k` of them, and blank rows below those.
pub visible_cell-scrolled :
    (k r c : ℕ) (s : Screen)
    → s.view_offset ≡ k
    → 0 < k
    → k ≤ length s.scrollback
    → r < s.rows
    → visible_cell s r c ≡ scrolled k s r c
unfolding visible_cell
visible_cell-scrolled k r c s e p h q =
    let n = length s.scrollback in
    let some_lines : s.view_offset == 0 ≡ false = ground arith in
    rw some_lines (
      rw (history_index_lem k r s e h) (elim (Bool-cases (ltb r k)) [
        | inl above ↦ ground arith
        | inr below ↦ rw (buffer_row_lem k r s e (ground arith) q) (ground arith)
      ]))
