-- ===== src/Prelude/Grid.antt =====
-- Spans of a flat vector that are spans of a row, or whole rows, of the grid stored in it.
use Prim.Native.Nat.{ℕ, ◌+◌, ◌*◌, ◌≤◌, ◌<◌}
use mathlib.Core.Path.{◌≡◌}
use mathlib.Core.Bool.{◌&&◌}
use native.Mathlib.Omega.{arith}
use fish_term.Prelude.Tests.{◌==◌}
use fish_term.Prelude.Arith.{mul_mono, row_fits}
use fish_term.Prelude.Buffer.{in_span}

pub rows_span :
    (cols from to r c : ℕ)
    → c < cols
    → in_span (from * cols) (to * cols) (r * cols + c) ≡ in_span from to r
rows_span cols from to r c h =
    ground
      (arith, mul_mono from r cols, row_fits r from cols, mul_mono to r cols, row_fits r to cols)

pub row_span :
    (cols row lo hi r c : ℕ)
    → c < cols
    → hi ≤ cols
    → in_span (row * cols + lo) (row * cols + hi) (r * cols + c) ≡ (r == row && in_span lo hi c)
row_span cols row lo hi r c h fits = ground (arith, row_fits r row cols, row_fits row r cols)

-- Two places of the grid are one index only if they are one place.
pub same_index :
    (cols row col r c : ℕ)
    → col < cols
    → c < cols
    → (r * cols + c == row * cols + col) ≡ (r == row && c == col)
same_index cols row col r c p q = ground (arith, row_fits r row cols, row_fits row r cols)
