-- ===== src/Theme/Parser/Colour.antt =====
-- `parseColor` on colours of six hexadecimal digits.
use fish_term.Prelude.{
  is_white, ℕ, ◌+◌, ◌*◌, ◌/◌, ◌%◌, ◌^◌, ◌<◌, ◌≡◌, refl, ap, ◌∙◌, Bool, true, false, ◌||◌, List, [],
  ◌∷◌, ◌++◌, some, inl, inr, Bool-cases, length, leb, ◌==◌, Bytes, hex_digit, hex_value, hex_byte,
  hex_value-hex_digit, arith,
}
use fish_term.Theme.Parser.{
  is_blank, trim_front, trim_back, trim_blanks, skip_white, read_sign, hex_number, starts_hex,
  skip_0x, stoul_16, without_hash, opaque, parse_color,
}

-- The six digits of a colour without its alpha.
abbrev pub hex_rgb : Bool → ℕ → Bytes
hex_rgb upper rgb =
    hex_byte upper (rgb / 65536 % 256)
    ++ (hex_byte upper (rgb / 256 % 256) ++ hex_byte upper (rgb % 256))

-- A hexadecimal digit is no blank and no sign.
abbrev IsDigit : ℕ → ℕ → Type 0
IsDigit b v =
    (hex_value b ≡ some v)
    × (is_blank b ≡ false)
    × (is_white b ≡ false)
    × ((b == b'#') ≡ false)
    × ((b == b'-') ≡ false)
    × ((b == b'+') ≡ false)
    × ((b == b'x' || b == b'X') ≡ false)

hex_digit-IsDigit : (upper : Bool) (n : ℕ) → n < 16 → IsDigit (hex_digit upper n) n
unfolding hex_digit
hex_digit-IsDigit true n h = (
  hex_value-hex_digit true n h,
  ground arith,
  ground arith,
  ground arith,
  ground arith,
  ground arith,
  ground arith,
)
hex_digit-IsDigit false n h = (
  hex_value-hex_digit false n h,
  ground arith,
  ground arith,
  ground arith,
  ground arith,
  ground arith,
  ground arith,
)

-- The digits of values below 16.
abbrev digits : Bool → List ℕ → Bytes
digits upper [] = []
digits upper (v ∷ vs) = hex_digit upper v ∷ digits upper vs

abbrev AreSmall : List ℕ → Type 0
AreSmall [] = Unit
AreSmall (v ∷ vs) = (v < 16) × AreSmall vs

trim_back-digits :
    (upper : Bool) (vs : List ℕ) → AreSmall vs → trim_back (digits upper vs) ≡ digits upper vs
unfolding trim_back
trim_back-digits upper [] h = refl
trim_back-digits upper (v ∷ []) h = rw ((hex_digit-IsDigit upper v h.0).1) refl
trim_back-digits upper (v ∷ w ∷ vs) h = rw (trim_back-digits upper (w ∷ vs) h.1) refl

abbrev value_of : ℕ → List ℕ → ℕ
value_of n [] = n
value_of n (v ∷ vs) = value_of (n * 16 + v) vs

hex_number-digits :
    (upper : Bool) (vs : List ℕ) (n : ℕ)
    → AreSmall vs
    → hex_number n (digits upper vs) ≡ value_of n vs
unfolding hex_number
hex_number-digits upper [] n h = refl
hex_number-digits upper (v ∷ vs) n h =
    rw ((hex_digit-IsDigit upper v h.0).0, hex_number) (hex_number-digits upper vs (n * 16 + v) h.1)

read_sign-digit :
    (upper : Bool) (v : ℕ) (bs : Bytes)
    → v < 16
    → read_sign (hex_digit upper v ∷ bs) ≡ (false, hex_digit upper v ∷ bs)
unfolding read_sign
read_sign-digit upper v bs h =
    let (hex, blank, white, hash, minus, plus, x) = hex_digit-IsDigit upper v h in
    rw minus (rw plus refl)

skip_0x-digits :
    (upper : Bool) (a v : ℕ) (bs : Bytes)
    → v < 16
    → skip_0x (a ∷ hex_digit upper v ∷ bs) ≡ a ∷ hex_digit upper v ∷ bs
unfolding skip_0x
skip_0x-digits upper a v bs h =
    let (hex, blank, white, hash, minus, plus, x) = hex_digit-IsDigit upper v h in
    elim (Bool-cases (a == b'0')) [
      | inl zero_first ↦ rw zero_first (rw x refl)
      | inr other ↦ rw other refl
    ]

stoul_16-digits :
    (upper : Bool) (v w : ℕ) (vs : List ℕ)
    → AreSmall (v ∷ w ∷ vs)
    → value_of 0 (v ∷ w ∷ vs) < 2 ^ 64
    → stoul_16 (digits upper (v ∷ w ∷ vs)) ≡ some (value_of 0 (v ∷ w ∷ vs))
unfolding stoul_16
stoul_16-digits upper v w vs h small =
    let d = hex_digit-IsDigit upper v h.0 in
    let bs = hex_digit upper w ∷ digits upper vs in
    let white : skip_white (hex_digit upper v ∷ bs) ≡ hex_digit upper v ∷ bs =
      rw (d.2, skip_white) refl in
    let starts : starts_hex (hex_digit upper v ∷ bs) ≡ true = rw (d.0, starts_hex) refl in
    let fits : leb (2 ^ 64) (value_of 0 (v ∷ w ∷ vs)) ≡ false = ground arith in
    rw white (
      rw (read_sign-digit upper v bs h.0) (
        rw (skip_0x-digits upper (hex_digit upper v) w (digits upper vs) h.1.0)
          (rw starts (rw (hex_number-digits upper (v ∷ w ∷ vs) 0 h) (rw fits refl)))))

parse_color_six :
    (text : Bytes) (b : ℕ) (bs : Bytes) (n : ℕ)
    → trim_blanks text ≡ b ∷ bs
    → stoul_16 (without_hash (b ∷ bs)) ≡ some n
    → length (without_hash (b ∷ bs)) ≡ 6
    → parse_color text ≡ opaque (n % 2 ^ 32)
unfolding parse_color
parse_color_six text b bs n trimmed read six = rw (trimmed, parse_color) (rw read (rw six refl))

trim_front-digits :
    (upper : Bool) (v : ℕ) (bs : Bytes)
    → v < 16
    → trim_front (hex_digit upper v ∷ bs) ≡ hex_digit upper v ∷ bs
unfolding trim_front
trim_front-digits upper v bs h = rw ((hex_digit-IsDigit upper v h).1, trim_front) refl

without_hash-digits :
    (upper : Bool) (v : ℕ) (bs : Bytes)
    → v < 16
    → without_hash (hex_digit upper v ∷ bs) ≡ hex_digit upper v ∷ bs
unfolding without_hash
without_hash-digits upper v bs h = rw ((hex_digit-IsDigit upper v h).3) refl

trim_blanks-digits :
    (upper : Bool) (v : ℕ) (vs : List ℕ)
    → AreSmall (v ∷ vs)
    → (trim_blanks (digits upper (v ∷ vs)) ≡ digits upper (v ∷ vs))
      × (trim_blanks (b'#' ∷ digits upper (v ∷ vs)) ≡ b'#' ∷ digits upper (v ∷ vs))
unfolding trim_blanks
trim_blanks-digits upper v vs h = (
  ap trim_back (trim_front-digits upper v (digits upper vs) h.0)
      ∙ trim_back-digits upper (v ∷ vs) h,
  rw (trim_back-digits upper (v ∷ vs) h, trim_back) refl,
)

parse_color-digits :
    (upper : Bool) (v w : ℕ) (vs : List ℕ)
    → AreSmall (v ∷ w ∷ vs)
    → length (digits upper (v ∷ w ∷ vs)) ≡ 6
    → value_of 0 (v ∷ w ∷ vs) < 2 ^ 64
    → (parse_color (digits upper (v ∷ w ∷ vs)) ≡ opaque (value_of 0 (v ∷ w ∷ vs) % 2 ^ 32))
      × (parse_color (b'#' ∷ digits upper (v ∷ w ∷ vs)) ≡ opaque (value_of 0 (v ∷ w ∷ vs) % 2 ^ 32))
unfolding without_hash
parse_color-digits upper v w vs h six small =
    let text = digits upper (v ∷ w ∷ vs) in
    let (plain, hashed) = trim_blanks-digits upper v (w ∷ vs) h in
    let kept = without_hash-digits upper v (digits upper (w ∷ vs)) h.0 in
    let read = stoul_16-digits upper v w vs h small in
    let n = value_of 0 (v ∷ w ∷ vs) in
    (
      parse_color_six text (hex_digit upper v) (digits upper (w ∷ vs)) n plain
          (ap stoul_16 kept ∙ read) (ap length kept ∙ six),
      parse_color_six (b'#' ∷ text) b'#' text n hashed read six,
    )

-- A colour written as six hexadecimal digits, in capitals or not, with `#` in front or without, is
-- read back as that colour, opaque.
pub parse_color-hex_rgb :
    (upper : Bool) (rgb : ℕ)
    → rgb < 2 ^ 24
    → (parse_color (hex_rgb upper rgb) ≡ 0xFF000000 + rgb)
      × (parse_color (b'#' ∷ hex_rgb upper rgb) ≡ 0xFF000000 + rgb)
unfolding hex_byte
parse_color-hex_rgb upper rgb h =
    let a = rgb / 65536 % 256 in
    let b = rgb / 256 % 256 in
    let c = rgb % 256 in
    let vs = (b / 16 % 16) ∷ (b % 16) ∷ (c / 16 % 16) ∷ (c % 16) ∷ [] in
    let value : value_of 0 ((a / 16 % 16) ∷ (a % 16) ∷ vs) ≡ rgb = omega arith in
    let (plain, hashed) =
      parse_color-digits upper (a / 16 % 16) (a % 16) vs
        (omega arith, (omega arith, (omega arith, (omega arith, (omega arith, (omega arith, tt))))))
        refl (omega arith) in
    let result : opaque (rgb % 2 ^ 32) ≡ 0xFF000000 + rgb = omega arith in
    (
      plain ∙ ap (λ n. opaque (n % 2 ^ 32)) value ∙ result,
      hashed ∙ ap (λ n. opaque (n % 2 ^ 32)) value ∙ result,
    )
