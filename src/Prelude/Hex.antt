-- ===== src/Prelude/Hex.antt =====
-- Hexadecimal digits as bytes, and their reader.
use Prim.Native.Nat.{ℕ, ◌+◌, ◌-◌, ◌*◌, ◌/◌, ◌%◌, ◌<◌}
use mathlib.Core.Path.{◌≡◌}
use mathlib.Core.Bool.{Bool, true, false, ◌&&◌}
use mathlib.Core.List.{[], ◌∷◌}
use mathlib.Core.Option.{Option, none, some}
use native.Mathlib.Omega.{arith}
use fish_term.Prelude.Tests.{ltb, leb, if◌then◌else◌}
use fish_term.Prelude.Text.{Bytes}

-- The digit of a number below 16, in capitals or not.
unfoldable pub hex_digit : Bool → ℕ → ℕ
hex_digit upper n = if ltb n 10 then b'0' + n else (if upper then b'A' else b'a') + (n - 10)

-- `std::isxdigit` with the digit's value.
unfoldable pub hex_value : ℕ → Option ℕ
hex_value b =
    if leb b'0' b && leb b b'9'
    then some (b - b'0')
    else if leb b'A' b && leb b b'F'
    then some (b - b'A' + 10)
    else if leb b'a' b && leb b b'f'
    then some (b - b'a' + 10)
    else none

pub hex_value-hex_digit : (upper : Bool) (n : ℕ) → n < 16 → hex_value (hex_digit upper n) ≡ some n
unfolding hex_value hex_digit
hex_value-hex_digit true n h = ground arith
hex_value-hex_digit false n h = ground arith

-- Two digits of a byte.
unfoldable pub hex_byte : Bool → ℕ → Bytes
hex_byte upper n = hex_digit upper (n / 16 % 16) ∷ hex_digit upper (n % 16) ∷ []

abbrev join_digits : Option ℕ → Option ℕ → Option ℕ
join_digits (some high) (some low) = some (high * 16 + low)
join_digits high low = none

-- The byte of two digits.
unfoldable pub read_hex_byte : ℕ → ℕ → Option ℕ
read_hex_byte high low = join_digits (hex_value high) (hex_value low)

pub read_hex_byte_digits :
    (upper : Bool) (n : ℕ)
    → n < 256
    → read_hex_byte (hex_digit upper (n / 16 % 16)) (hex_digit upper (n % 16)) ≡ some n
unfolding read_hex_byte
read_hex_byte_digits upper n h =
    rw (hex_value-hex_digit upper (n / 16 % 16) (omega arith))
      (rw (hex_value-hex_digit upper (n % 16) (omega arith)) (ground arith))
