-- ===== src/Utf8/RoundTrip.antt =====
-- A UTF-8 decoder, and that it reads back what the encoder writes.
use Prim.Native.Nat.{bit_or}
use fish_term.Prelude.{
  false, Bool-cases, inl, inr, ℕ, zero, suc, ◌+◌, ◌-◌, ◌*◌, ◌/◌, ◌%◌, ◌<◌, ◌≡◌, refl, ◌∙◌, ap, sym,
  Bool, true, ◌&&◌, List, [], ◌∷◌, ◌++◌, Option, none, some, ◌>>=◌, leb, ltb, ◌==◌, if◌then◌else◌,
  arith,
}
use fish_term.Utf8.{utf8, encode}

-- The six bits of a continuation byte.
unfoldable pub six_bits : ℕ → Option ℕ
six_bits b = if leb 0x80 b && ltb b 0xC0 then some (b - 0x80) else none

-- Some more continuation bytes, gathered behind the bits of the lead byte.
unfoldable pub gather : ℕ → ℕ → List ℕ → Option (ℕ × List ℕ)
gather zero bits rest = some (bits, rest)
gather (suc n) bits [] = none
gather (suc n) bits (b ∷ rest) = six_bits b >>= λ low. gather n (bits * 64 + low) rest

-- One code point from the front of a text.
unfoldable pub decode_one : List ℕ → Option (ℕ × List ℕ)
unfolding gather six_bits
decode_one [] = none
decode_one (b ∷ rest) =
    if ltb b 0x80
    then some (b, rest)
    else if ltb b 0xC0
    then none
    else if ltb b 0xE0
    then gather 1 (b - 0xC0) rest
    else if ltb b 0xF0
    then gather 2 (b - 0xE0) rest
    else if ltb b 0xF8
    then gather 3 (b - 0xF0) rest
    else none

-- `mark | y` is `mark + y` for every `y` below a bound.
disjoint_below : ℕ → ℕ → Bool
disjoint_below mark zero = true
disjoint_below mark (suc y) =
    let earlier = disjoint_below mark y in if bit_or mark y == mark + y then earlier else false

-- The marks of the lead and continuation bytes meet no bit of what they are joined with.
or_mark :
    (mark bound x : ℕ) → disjoint_below mark bound ≡ true → x < bound → bit_or mark x ≡ mark + x
unfolding disjoint_below
or_mark mark zero x table below = absurd (omega arith)
or_mark mark (suc y) x table below = elim (Bool-cases (x == y)) [
  | inl here ↦ let e : x ≡ y = ground arith in rw e (ground arith)
  | inr earlier ↦ or_mark mark y x (ground arith) (ground arith)
]

pub or_80 : (x : ℕ) → bit_or 0x80 (x % 64) ≡ 0x80 + x % 64
unfolding disjoint_below
or_80 x = or_mark 0x80 64 (x % 64) refl (omega arith)

pub or_c0 : (x : ℕ) → x < 32 → bit_or 0xC0 x ≡ 0xC0 + x
unfolding disjoint_below
or_c0 x h = or_mark 0xC0 32 x refl h

pub or_e0 : (x : ℕ) → x < 16 → bit_or 0xE0 x ≡ 0xE0 + x
unfolding disjoint_below
or_e0 x h = or_mark 0xE0 16 x refl h

pub or_f0 : (x : ℕ) → x < 8 → bit_or 0xF0 x ≡ 0xF0 + x
unfolding disjoint_below
or_f0 x h = or_mark 0xF0 8 x refl h

-- Every code point below 2 ^ 21, all of Unicode among them, is read back, whatever follows it.
pub decode_one-utf8 :
    (c : ℕ) (rest : List ℕ) → c < 0x200000 → decode_one (utf8 c ++ rest) ≡ some (c, rest)
unfolding decode_one utf8
decode_one-utf8 c rest h = ground (
  arith,
  or_80 c,
  or_80 (c / 64),
  or_80 (c / 4096),
  or_c0 (c / 64),
  or_e0 (c / 4096),
  or_f0 (c / 262144),
)

-- Code points that a text can carry.
abbrev pub InRange : List ℕ → Type 0
InRange [] = Unit
InRange (c ∷ cs) = (c < 0x200000) × InRange cs

decode_one-encode :
    (c : ℕ) (cs : List ℕ) → c < 0x200000 → decode_one (encode (c ∷ cs)) ≡ some (c, encode cs)
unfolding encode
decode_one-encode c cs h = decode_one-utf8 c (encode cs) h

encode-nil : decode_one (encode []) ≡ none
unfolding encode decode_one
encode-nil = refl

-- Two sequences of code points with the same text are the same sequence.
pub encode-injective : (cs ds : List ℕ) → InRange cs → InRange ds → encode cs ≡ encode ds → cs ≡ ds
encode-injective [] [] p q e = refl
encode-injective [] (d ∷ ds) p q e = cc (encode-nil, decode_one-encode d ds q.0, ap decode_one e)
encode-injective (c ∷ cs) [] p q e = cc (encode-nil, decode_one-encode c cs p.0, ap decode_one e)
encode-injective (c ∷ cs) (d ∷ ds) p q e =
    let read = sym (decode_one-encode c cs p.0) ∙ ap decode_one e ∙ decode_one-encode d ds q.0 in
    ground (arith, read, encode-injective cs ds p.1 q.1)
