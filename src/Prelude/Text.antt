-- ===== src/Prelude/Text.antt =====
-- Text as a list of bytes, and a `switch` on a number.
use Prim.Native.Char.{code}
use Prim.Native.String.{String}
use Prim.Native.Nat.{ℕ}
use mathlib.Core.Path.{◌≡◌, refl}
use mathlib.Core.Bool.{Bool, true, false, ◌&&◌, ◌||◌}
use mathlib.Core.List.{List, [], ◌∷◌}
use mathlib.Core.Option.{Option, none, some}
use native.Mathlib.Omega.{arith}
use mathlib.Core.Logic.{inl, inr}
use fish_term.Prelude.Tests.{leb, ◌==◌, if◌then◌else◌, Bool-cases, ==_iff}

abbrev pub Bytes : Type 0
Bytes = List ℕ

-- The bytes of an ASCII literal.
abbrev pub codes : String → Bytes
codes String.[] = []
codes (String.◌∷◌ c s) = code c ∷ codes s

-- `std::isspace` in the C locale.
abbrev pub is_white : ℕ → Bool
is_white b = b == b' ' || leb 9 b && leb b 13

-- `std::string::operator==`
abbrev pub eqb_bytes : Bytes → Bytes → Bool
eqb_bytes [] [] = true
eqb_bytes [] (b ∷ bs) = false
eqb_bytes (a ∷ as') [] = false
eqb_bytes (a ∷ as') (b ∷ bs) = a == b && eqb_bytes as' bs

pub eqb_bytes→eq : (s t : Bytes) → eqb_bytes s t ≡ true → s ≡ t
eqb_bytes→eq [] [] h = refl
eqb_bytes→eq [] (b ∷ bs) h = cc
eqb_bytes→eq (a ∷ as') [] h = cc
eqb_bytes→eq (a ∷ as') (b ∷ bs) h = ground (arith, eqb_bytes→eq as' bs)

-- The cases of a `switch` on a number; `none` is its default.
abbrev pub switch {ℓ} : {A : Type ℓ} → ℕ → List (ℕ × A) → Option A
switch n [] = none
switch n ((k, a) ∷ cases) = if n == k then some a else switch n cases

-- What holds of every case of a `switch`, with its number, holds of the case that is taken.
abbrev pub AllCases {ℓ κ} : {A : Type ℓ} → (ℕ → A → Type κ) → List (ℕ × A) → Type κ
AllCases P [] = Unit
AllCases P ((k, a) ∷ cases) = P k a × AllCases P cases

pub switch-AllCases {ℓ κ} :
    {A : Type ℓ} (P : ℕ → A → Type κ) (n : ℕ) (cases : List (ℕ × A)) (a : A)
    → switch n cases ≡ some a
    → AllCases P cases
    → P n a
switch-AllCases P n [] a e all = cc
switch-AllCases P n ((k, b) ∷ cases) a e all = elim (Bool-cases (n == k)) [
  | inl here ↦
      (let same_n : n ≡ k = (==_iff n k).0 here in
        let taken : some b ≡ some a = rw here at e in
        let same_a : a ≡ b = cc in rw same_n (rw same_a all.0))
  | inr past ↦ switch-AllCases P n cases a (rw past at e) all.1
]

pub eqb_bytes_refl : (s : Bytes) → eqb_bytes s s ≡ true
eqb_bytes_refl [] = refl
eqb_bytes_refl (b ∷ bs) = ground (arith, eqb_bytes_refl bs)
