-- ===== src/Prelude.antt =====
-- The names that the other modules share: the libraries', passed on, and those of the children.
mod Tests
mod Lists
mod Int
mod Loops
mod Buffer
mod Arith
mod Grid
mod Text
mod Decimal
mod Hex
pub use Tests.*
pub use Lists.*
pub use Int.{
  ℤ, pos, negsuc, pos_part, neg_part, sub_ℕ, ◌≤ℤ◌, ltb_ℤ, leb_ℤ, eqb_ℤ, eqb_ℤ→eq, nonneg_eq, max_ℤ,
  min_ℤ,
}
unfoldable pub use Int.{◌+ℤ◌, ◌-ℤ◌}
pub use Loops.{
  ◌>>=◌, Returns, Returns-bind, Returns-mono, Returns-some, for_range_inv, for_down_inv,
}
unfoldable pub use Loops.{for_range, for_down}
pub use Arith.*
pub use Grid.*
pub use Text.*
pub use Decimal.{
  is_digit, read_decimal, read_decimal-decimal, decimal_front, AreDigits, decimal-AreDigits,
}
unfoldable pub use Decimal.{decimal}
pub use Hex.{hex_value-hex_digit, read_hex_byte_digits}
unfoldable pub use Hex.{hex_digit, hex_value, hex_byte, read_hex_byte}
pub use Buffer.{Holds, Holds-self, Holds-ext, store_lem, fill_lem, in_span}
unfoldable pub use Buffer.{store, fill}
pub use Prim.Native.Nat.{ℕ, zero, suc, ◌+◌, ◌-◌, ◌*◌, ◌/◌, ◌%◌, ◌^◌, ◌≤◌, ◌<◌, min, max}
pub use mathlib.Core.Path.{◌≡◌, refl, sym, ap, ◌∙◌, subst}
pub use mathlib.Core.Logic.{◌≢◌, ◌↔◌, ◌⊎◌, inl, inr}
pub use mathlib.Core.Bool.{Bool, true, false, not, ◌&&◌, ◌||◌}
pub use mathlib.Core.Option.{Option, none, some}
pub use mathlib.Core.List.{List, [], ◌∷◌, ◌++◌, map}
pub use native.Mathlib.Omega.{arith}
