-- ===== src/Prelude/Decimal.antt =====
-- Decimal numbers as bytes, as `%d` and `operator<<` print them, and their reader.
use mathlib.Core.List.{append_assoc}
use Prim.Native.Nat.{ℕ, zero, suc, ◌+◌, ◌-◌, ◌*◌, ◌/◌, ◌%◌, ◌<◌}
use mathlib.Core.Path.{◌≡◌, refl, ap, ◌∙◌}
use mathlib.Core.Bool.{Bool, true, ◌&&◌}
use mathlib.Core.Logic.{inl, inr}
use mathlib.Core.List.{[], ◌∷◌, ◌++◌}
use native.Mathlib.Omega.{arith}
use fish_term.Prelude.Tests.{ltb, leb, if◌then◌else◌, Bool-cases}
use fish_term.Prelude.Text.{Bytes}

-- The digits of a number, for at most `fuel` of them.
pub digits_within : ℕ → ℕ → Bytes
digits_within zero n = []
digits_within (suc fuel) n =
    let front = digits_within fuel (n / 10) in
    if ltb n 10 then (b'0' + n) ∷ [] else front ++ (b'0' + n % 10) ∷ []

-- A number has fewer digits than one more than itself.
unfoldable pub decimal : ℕ → Bytes
unfolding digits_within
decimal n = digits_within (suc n) n

abbrev pub is_digit : ℕ → Bool
is_digit b = leb b'0' b && leb b b'9'

-- The digits at the front of a text, behind a number that is read already.
abbrev pub read_decimal : ℕ → Bytes → ℕ × Bytes
read_decimal n [] = (n, [])
read_decimal n (b ∷ bs) = if is_digit b then read_decimal (n * 10 + (b - b'0')) bs else (n, b ∷ bs)

read_decimal_digit :
    (n d : ℕ) (rest : Bytes)
    → d < 10
    → read_decimal n ((b'0' + d) ∷ rest) ≡ read_decimal (n * 10 + d) rest
read_decimal_digit n d rest h =
    let test : is_digit (b'0' + d) ≡ true = ground arith in
    rw test (ap (λ k. read_decimal k rest) (omega arith))

read_decimal-digits_within :
    (fuel n : ℕ) (rest : Bytes)
    → n < fuel
    → read_decimal 0 (digits_within fuel n ++ rest) ≡ read_decimal n rest
unfolding digits_within
read_decimal-digits_within zero n rest h = absurd (omega arith)
read_decimal-digits_within (suc fuel) n rest h = elim (Bool-cases (ltb n 10)) [
  | inl last ↦
      rw last
        (read_decimal_digit 0 n rest (ground arith) ∙ ap (λ k. read_decimal k rest) (omega arith))
  | inr more ↦ rw more (
      rw (append_assoc (digits_within fuel (n / 10)) ((b'0' + n % 10) ∷ []) rest) (
        read_decimal-digits_within fuel (n / 10) ((b'0' + n % 10) ∷ rest) (ground arith)
        ∙ read_decimal_digit (n / 10) (n % 10) rest (omega arith)
        ∙ ap (λ k. read_decimal k rest) (omega arith)))
]

pub read_decimal-decimal :
    (n : ℕ) (rest : Bytes) → read_decimal 0 (decimal n ++ rest) ≡ read_decimal n rest
unfolding decimal
read_decimal-decimal n rest = read_decimal-digits_within (suc n) n rest (omega arith)

digits_within_front :
    (fuel n : ℕ)
    → n < fuel
    → (b : ℕ) × (bs : Bytes) × (digits_within fuel n ≡ b ∷ bs) × (is_digit b ≡ true)
unfolding digits_within
digits_within_front zero n h = absurd (omega arith)
digits_within_front (suc fuel) n h = elim (Bool-cases (ltb n 10)) [
  | inl last ↦ (b'0' + n, [], rw last refl, ground arith)
  | inr more ↦
      (let (b, bs, e, digit) = digits_within_front fuel (n / 10) (ground arith) in
        (b, bs ++ (b'0' + n % 10) ∷ [], rw more (rw e refl), digit))
]

-- A printed number starts with a digit.
pub decimal_front : (n : ℕ) → (b : ℕ) × (bs : Bytes) × (decimal n ≡ b ∷ bs) × (is_digit b ≡ true)
unfolding decimal
decimal_front n = digits_within_front (suc n) n (omega arith)

-- The digits of a number.
abbrev pub AreDigits : Bytes → Type 0
AreDigits [] = Unit
AreDigits (b ∷ bs) = (is_digit b ≡ true) × AreDigits bs

append-AreDigits : (s t : Bytes) → AreDigits s → AreDigits t → AreDigits (s ++ t)
append-AreDigits [] t p q = q
append-AreDigits (b ∷ s) t p q = (p.0, append-AreDigits s t p.1 q)

digits_within-AreDigits : (fuel n : ℕ) → AreDigits (digits_within fuel n)
unfolding digits_within
digits_within-AreDigits zero n = tt
digits_within-AreDigits (suc fuel) n = elim (Bool-cases (ltb n 10)) [
  | inl last ↦ rw last (ground arith, tt)
  | inr more ↦ rw more (
      append-AreDigits (digits_within fuel (n / 10)) ((b'0' + n % 10) ∷ [])
        (digits_within-AreDigits fuel (n / 10)) (ground arith, tt))
]

pub decimal-AreDigits : (n : ℕ) → AreDigits (decimal n)
unfolding decimal
decimal-AreDigits n = digits_within-AreDigits (suc n) n
