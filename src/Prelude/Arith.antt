-- ===== src/Prelude/Arith.antt =====
-- Rows of a grid stored in one vector: the row `r` of width `c` takes the span from `r * c`.
use Prim.Native.Nat.{ℕ, ◌+◌, ◌*◌, ◌≤◌, ◌<◌}
use native.Mathlib.Omega.{arith}

pub mul_mono : (a b c : ℕ) → a ≤ b → a * c ≤ b * c
mul_mono a b c h = grind arith

-- A row that lies below `b` ends before the row `b` starts.
pub row_fits : (r b c : ℕ) → r < b → r * c + c ≤ b * c
row_fits r b c h = omega (arith, mul_mono (r + 1) b c (omega arith))

pub index_fits : (r b c k : ℕ) → r < b → k < c → r * c + k < b * c
index_fits r b c k h l = omega (arith, row_fits r b c h)
