-- ===== src/Host/Utf16/RoundTrip.antt =====
-- Text goes from UTF-8 to UTF-16 and back.
use mathlib.Core.List.{append-nil}
use fish_term.Prelude.{
  ℕ, zero, suc, ◌+◌, ◌-◌, ◌*◌, ◌/◌, ◌%◌, ◌<◌, ◌≤◌, ◌≡◌, refl, sym, ap, ◌∙◌, true, false, ◌&&◌, List,
  [], ◌∷◌, ◌++◌, none, some, length, length-append, leb, Bool-cases, inl, inr, arith,
}
use fish_term.Utf8.{utf8, encode}
use fish_term.Utf8.RoundTrip.{or_80, or_c0, or_e0, or_f0}
use fish_term.Host.Utf16.{
  take_code_point, units, utf16_rounds, utf8_to_utf16, push_utf8, is_high, is_low, utf16_to_utf8,
}

-- The encoder of the input method and that of the terminal agree.
push_utf8-utf8 : (c : ℕ) → c < 0x200000 → push_utf8 c ≡ utf8 c
unfolding push_utf8 utf8
push_utf8-utf8 c h = ground arith

take_code_point-utf8 :
    (c : ℕ) (rest : List ℕ) → c < 0x200000 → take_code_point (utf8 c ++ rest) ≡ some (c, rest)
unfolding take_code_point utf8
take_code_point-utf8 c rest h = ground (
  arith,
  or_80 c,
  or_80 (c / 64),
  or_80 (c / 4096),
  or_c0 (c / 64),
  or_e0 (c / 4096),
  or_f0 (c / 262144),
)

-- Unicode's scalar values: the code points up to U+10FFFF that are no surrogates.
abbrev pub IsScalar : ℕ → Type 0
IsScalar c = (c < 0x110000) × ((leb 0xD800 c && leb c 0xDFFF) ≡ false)

abbrev pub IsText : List ℕ → Type 0
IsText [] = Unit
IsText (c ∷ cs) = IsScalar c × IsText cs

-- The UTF-16 form of a sequence of code points.
unfoldable pub utf16 : List ℕ → List ℕ
utf16 [] = []
utf16 (c ∷ cs) = units c ++ utf16 cs

length-utf8 : (c : ℕ) → 0 < length (utf8 c)
unfolding utf8
length-utf8 c = ground arith

take_code_point-nil : take_code_point [] ≡ none
unfolding take_code_point
take_code_point-nil = refl

utf16_rounds-encode :
    (fuel : ℕ) (cs : List ℕ)
    → IsText cs
    → length (encode cs) ≤ fuel
    → utf16_rounds fuel (encode cs) ≡ utf16 cs
unfolding utf16_rounds encode utf16
utf16_rounds-encode zero [] t h = refl
utf16_rounds-encode (suc fuel) [] t h = rw (take_code_point-nil, utf16_rounds) refl
utf16_rounds-encode zero (c ∷ cs) t h =
    absurd (omega (arith, length-append (utf8 c) (encode cs), length-utf8 c))
utf16_rounds-encode (suc fuel) (c ∷ cs) t h =
    rw (take_code_point-utf8 c (encode cs) (omega arith), utf16_rounds)
      (ap (units c ++◌) (
        utf16_rounds-encode fuel cs t.1
          (omega (arith, length-append (utf8 c) (encode cs), length-utf8 c))))

single :
    (u : ℕ) (rest : List ℕ)
    → is_high u ≡ false
    → utf16_to_utf8 (u ∷ rest) ≡ push_utf8 u ++ utf16_to_utf8 rest
unfolding utf16_to_utf8
single u [] low = sym (append-nil (push_utf8 u))
single u (v ∷ rest) low = rw (low, utf16_to_utf8) refl

pair :
    (u v : ℕ) (rest : List ℕ)
    → (is_high u && is_low v) ≡ true
    → utf16_to_utf8 (u ∷ v ∷ rest)
      ≡ push_utf8 (0x10000 + ((u - 0xD800) * 1024 + (v - 0xDC00))) ++ utf16_to_utf8 rest
unfolding utf16_to_utf8
pair u v rest h = rw (h, utf16_to_utf8) refl

utf16_to_utf8-units :
    (c : ℕ) (rest : List ℕ)
    → IsScalar c
    → utf16_to_utf8 (units c ++ rest) ≡ push_utf8 c ++ utf16_to_utf8 rest
unfolding units
utf16_to_utf8-units c rest s = elim (Bool-cases (leb c 0xFFFF)) [
  | inl one ↦ rw one (single c rest (ground arith))
  | inr two ↦ rw two (
      pair (0xD800 + (c - 0x10000) / 1024 % 1024) (0xDC00 + (c - 0x10000) % 1024) rest
        (ground arith)
      ∙ ap (λ k. push_utf8 k ++ utf16_to_utf8 rest) (ground arith))
]

pub utf16_to_utf8-utf16 : (cs : List ℕ) → IsText cs → utf16_to_utf8 (utf16 cs) ≡ encode cs
unfolding utf16 encode utf16_to_utf8
utf16_to_utf8-utf16 [] t = refl
utf16_to_utf8-utf16 (c ∷ cs) t =
    utf16_to_utf8-units c (utf16 cs) t.0
    ∙ (rw (push_utf8-utf8 c (omega arith)) (rw (utf16_to_utf8-utf16 cs t.1) refl))

-- Text in UTF-8, of Unicode's scalar values, goes to their UTF-16 form, and back to the same bytes.
pub utf16_to_utf8-utf8_to_utf16 :
    (cs : List ℕ)
    → IsText cs
    → (utf8_to_utf16 (encode cs) ≡ utf16 cs)
      × (utf16_to_utf8 (utf8_to_utf16 (encode cs)) ≡ encode cs)
unfolding utf8_to_utf16
utf16_to_utf8-utf8_to_utf16 cs t =
    let there = utf16_rounds-encode (length (encode cs)) cs t (omega arith) in
    (there, rw there (utf16_to_utf8-utf16 cs t))
