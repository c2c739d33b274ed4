-- ===== src/Screen/Erase.antt =====
-- `clear`, `eraseInLine`, `eraseInDisplay` and `resize`.
pub mod Cells
pub mod Resize
pub mod Overrun
use fish_term.Prelude.{
  ℕ, ◌+◌, ◌-◌, ◌*◌, ◌||◌, List, map, get_elem?, replicate, Option, none, some, ◌>>=◌, ℤ, pos, eqb_ℤ,
  if◌then◌else◌, for_range, fill, store, min,
}
use fish_term.Screen.Cell.{Cell, blank}
use fish_term.Screen.State.{with_buffer, Screen, clamp}
use fish_term.Screen.Rows.{blank_rows}

-- `clear`
unfoldable pub clear : Screen → Screen
clear s = record s { buffer = map (λ _. blank) s.buffer; cursor_row = 0; cursor_col = 0 }

-- `eraseInLine`: to the end (0), to the start (1), the whole line (2).
unfoldable pub erase_in_line : ℤ → Screen → Option Screen
erase_in_line mode s =
    if eqb_ℤ mode (pos 0)
    then with_buffer s
        (fill (s.cursor_row * s.cols) (s.cols - s.cursor_col) s.cursor_col blank s.buffer)
    else if eqb_ℤ mode (pos 1)
    then with_buffer s (fill (s.cursor_row * s.cols) (s.cursor_col + 1) 0 blank s.buffer)
    else if eqb_ℤ mode (pos 2)
    then with_buffer s (fill (s.cursor_row * s.cols) s.cols 0 blank s.buffer)
    else some s

-- `eraseInDisplay`: from the cursor (0), up to the cursor (1), everything (2 and 3).
unfoldable pub erase_in_display : ℤ → Screen → Option Screen
erase_in_display mode s =
    if eqb_ℤ mode (pos 0)
    then (erase_in_line (pos 0) s >>= λ t.
        with_buffer t (blank_rows t.cols (t.rows - (t.cursor_row + 1)) (t.cursor_row + 1) t.buffer))
    else if eqb_ℤ mode (pos 1)
    then (with_buffer s (blank_rows s.cols s.cursor_row 0 s.buffer) >>= λ t.
        erase_in_line (pos 1) t)
    else if eqb_ℤ mode (pos 2) || eqb_ℤ mode (pos 3)
    then some (record s { buffer = map (λ _. blank) s.buffer })
    else some s

-- The loops of `resize`, which copy the part that both sizes have into a fresh buffer.
unfoldable pub copy_overlap : ℕ → ℕ → ℕ → ℕ → List Cell → List Cell → Option (List Cell)
copy_overlap cols old_cols copy_rows copy_cols old fresh =
    for_range copy_rows 0
      (λ r b.
        for_range copy_cols 0
          (λ c b. get_elem? old (r * old_cols + c) >>= λ x. store b (r * cols + c) x) b)
      fresh

-- `resize`
unfoldable pub resize : ℕ → ℕ → Screen → Option Screen
resize cols rows s =
    copy_overlap cols s.cols (min rows s.rows) (min cols s.cols) s.buffer
      (replicate (cols * rows) blank)
    >>= λ b. some (record s {
      buffer = b;
      cols = cols;
      rows = rows;
      scroll_top = 0;
      scroll_bottom = rows - 1;
      cursor_row = clamp (pos s.cursor_row) rows;
      cursor_col = clamp (pos s.cursor_col) cols;
    })
