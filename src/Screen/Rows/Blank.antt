-- ===== src/Screen/Rows/Blank.antt =====
-- What a buffer holds after whole rows are blanked.
use fish_term.Prelude.{
  ℕ, ◌+◌, ◌*◌, ◌≤◌, ◌<◌, ◌≡◌, List, Option, some, Returns, Returns-mono, for_range_inv, fill,
  fill_lem, Holds, Holds-ext, in_span, mul_mono, row_fits, if◌then◌else◌, arith,
}
use fish_term.Screen.Cell.{Cell, blank}
use fish_term.Screen.Rows.{blank_rows}

blank_row_step :
    (f : ℕ → Option Cell) (cols from r j : ℕ)
    → from ≤ r
    → (if in_span (r * cols + 0) (r * cols + cols) j
        then some blank
        else if in_span (from * cols) (r * cols) j
        then some blank
        else f j)
      ≡ (if in_span (from * cols) ((r + 1) * cols) j then some blank else f j)
blank_row_step f cols from r j h = ground (arith, mul_mono from r cols)

module _ {size : ℕ} {f : ℕ → Option Cell} where
  pub blank_rows_lem :
      (cols n from to : ℕ) (b : List Cell)
      → Holds size f b
      → from + n ≡ to
      → to * cols ≤ size
      → Returns
          (blank_rows cols n from b)
          (Holds size (λ j. if in_span (from * cols) (to * cols) j then some blank else f j))
  unfolding blank_rows
  blank_rows_lem cols n from to b h e fits =
      for_range_inv done _ n from to b e round (Holds-ext b (λ j. ground arith) h)
    where
      done : ℕ → List Cell → Type 0
      done r = Holds size (λ j. if in_span (from * cols) (r * cols) j then some blank else f j)

      round :
          (r : ℕ) (t : List Cell)
          → from ≤ r
          → r < to
          → done r t
          → Returns (fill (r * cols) cols 0 blank t) (done (r + 1))
      round r t lo hi w =
          Returns-mono _ (done (r + 1)) (fill (r * cols) cols 0 blank t)
            (fill_lem (r * cols) cols 0 cols blank t w (omega arith)
              (omega (arith, row_fits r to cols hi)))
            λ u. Holds-ext u (λ j. blank_row_step f cols from r j lo)
