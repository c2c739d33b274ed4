-- ===== src/Screen/Rows.antt =====
-- The nested loops over rows and columns by which the methods blank and move whole rows.
pub mod Blank
pub mod Move
use fish_term.Prelude.{
  ℕ, suc, zero, ◌+◌, ◌-◌, ◌*◌, ◌≤◌, ◌<◌, ◌≡◌, refl, ap, ◌∙◌, ◌⊎◌, inl, inr, Bool, List, length,
  get_elem?, get_elem?-total, Option, none, some, ◌>>=◌, Returns, Returns-mono, Returns-bind,
  for_range, for_down, for_range_inv, for_down_inv, store, store_lem, fill, fill_lem, Holds,
  Holds-ext, in_span, mul_mono, row_fits, index_fits, if◌then◌else◌, ltb, leb, ◌==◌, arith,
}
use fish_term.Screen.Cell.{Cell, blank}

-- for (r = from; r < from + n; r++) for (c = 0; c < cols; c++) buffer[r * cols + c] = Cell();
unfoldable pub blank_rows : ℕ → ℕ → ℕ → List Cell → Option (List Cell)
blank_rows cols n from b = for_range n from (λ r b. fill (r * cols) cols 0 blank b) b

-- for (c = 0; c < cols; c++) buffer[to + c] = buffer[from + c];
unfoldable pub copy_row : ℕ → ℕ → ℕ → List Cell → Option (List Cell)
copy_row cols from to b =
    for_range cols 0 (λ c b. get_elem? b (from + c) >>= λ x. store b (to + c) x) b

-- for (r = first; r < first + n; r++) row r = row r + lines
unfoldable pub rows_up : ℕ → ℕ → ℕ → ℕ → List Cell → Option (List Cell)
rows_up cols lines n first b =
    for_range n first (λ r b. copy_row cols ((r + lines) * cols) (r * cols) b) b

-- for (r = first + n - 1; r >= first; r--) row r = row r - lines
unfoldable pub rows_down : ℕ → ℕ → ℕ → ℕ → List Cell → Option (List Cell)
rows_down cols lines n first b =
    for_down n first (λ r b. copy_row cols ((r - lines) * cols) (r * cols) b) b
