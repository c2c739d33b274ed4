-- ===== src/Host/Ime/Preview.antt =====
-- A line editor behind the terminal sees what the input method composes.
use fish_term.Prelude.{
  ℕ, zero, suc, ◌+◌, ◌/◌, ◌<◌, ◌≡◌, ◌≢◌, refl, ap, ◌∙◌, ◌&&◌, List, [], ◌∷◌, ◌++◌, length, leb,
  ◌==◌, if◌then◌else◌, Bytes, arith,
}
use fish_term.Utf8.{utf8, encode}
use fish_term.Utf8.RoundTrip.{or_80, or_c0, or_e0, or_f0}
use fish_term.Host.Utf16.{units}
use fish_term.Host.Utf16.RoundTrip.{IsScalar, IsText, utf16}
use fish_term.Terminal.Mouse.{repeat}
use fish_term.Host.Ime.{utf16_code_point_count}

-- A line of bytes, the last one first, and what a byte that is typed does to it: a DEL takes the last
-- character off.
abbrev pub take_character : Bytes → Bytes
take_character [] = []
take_character (b ∷ line) = if leb 0x80 b && leb b 0xBF then take_character line else line

abbrev pub type_byte : ℕ → Bytes → Bytes
type_byte b line = if b == 127 then take_character line else b ∷ line

unfoldable pub type_bytes : Bytes → Bytes → Bytes
type_bytes [] line = line
type_bytes (b ∷ bs) line = type_bytes bs (type_byte b line)

pub type_bytes-nil : (line : Bytes) → type_bytes (encode []) line ≡ line
unfolding type_bytes encode
type_bytes-nil line = refl

pub type_bytes-append :
    (s t line : Bytes) → type_bytes (s ++ t) line ≡ type_bytes t (type_bytes s line)
unfolding type_bytes
type_bytes-append [] t line = refl
type_bytes-append (b ∷ s) t line = type_bytes-append s t (type_byte b line)

-- A character that is typed goes with one DEL.
take_character-utf8 :
    (c : ℕ) (line : Bytes)
    → c < 0x200000
    → c ≢ 127
    → take_character (type_bytes (utf8 c) line) ≡ line
unfolding type_bytes utf8
take_character-utf8 c line h no_del = ground (
  arith,
  or_80 c,
  or_80 (c / 64),
  or_80 (c / 4096),
  or_c0 (c / 64),
  or_e0 (c / 4096),
  or_f0 (c / 262144),
)

-- Text of scalar values without DEL.
abbrev pub IsPlain : List ℕ → Type 0
IsPlain [] = Unit
IsPlain (c ∷ cs) = (IsScalar c × (c ≢ 127)) × IsPlain cs

pub plain-IsText : (cs : List ℕ) → IsPlain cs → IsText cs
plain-IsText [] p = tt
plain-IsText (c ∷ cs) p = (p.0.0, plain-IsText cs p.1)

repeat-last : (n : ℕ) → repeat (suc n) (127 ∷ []) ≡ repeat n (127 ∷ []) ++ 127 ∷ []
unfolding repeat
repeat-last zero = refl
repeat-last (suc n) = ap (λ t. 127 ∷ t) (repeat-last n)

-- As many DELs as characters take a text off the line.
pub type_bytes-deletes :
    (cs : List ℕ) (line : Bytes)
    → IsPlain cs
    → type_bytes (repeat (length cs) (127 ∷ [])) (type_bytes (encode cs) line) ≡ line
unfolding type_bytes repeat encode
type_bytes-deletes [] line p = refl
type_bytes-deletes (c ∷ cs) line p =
    let dels = repeat (length cs) (127 ∷ []) in
    let first = type_bytes (utf8 c) line in
    ap (λ t. type_bytes t (type_bytes (utf8 c ++ encode cs) line)) (repeat-last (length cs))
    ∙ type_bytes-append dels (127 ∷ []) (type_bytes (utf8 c ++ encode cs) line)
    ∙ ap (λ t. take_character (type_bytes dels t)) (type_bytes-append (utf8 c) (encode cs) line)
    ∙ ap take_character (type_bytes-deletes cs first p.1)
    ∙ take_character-utf8 c line (omega (arith, p.0.0)) p.0.1

utf16_code_point_count-units :
    (c : ℕ) (rest : List ℕ)
    → IsScalar c
    → utf16_code_point_count (units c ++ rest) ≡ 1 + utf16_code_point_count rest
unfolding utf16_code_point_count units
utf16_code_point_count-units c rest s = ground arith

pub utf16_code_point_count-utf16 :
    (cs : List ℕ) → IsText cs → utf16_code_point_count (utf16 cs) ≡ length cs
unfolding utf16_code_point_count utf16
utf16_code_point_count-utf16 [] t = refl
utf16_code_point_count-utf16 (c ∷ cs) t =
    utf16_code_point_count-units c (utf16 cs) t.0
    ∙ (rw (utf16_code_point_count-utf16 cs t.1) (omega arith))
