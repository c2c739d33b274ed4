-- ===== src/Terminal/Replies/Answers.antt =====
-- The answers to a capability query and to a query for a palette colour.
use mathlib.Core.List.{append-nil}
use fish_term.Prelude.{
  is_white, ℕ, ◌<◌, ◌≡◌, refl, sym, ap, ◌∙◌, Bool, true, false, ◌&&◌, ◌||◌, [], ◌∷◌, ◌++◌, Option,
  none, some, ◌==◌, if◌then◌else◌, Bytes, codes, eqb_bytes, decimal, is_digit, read_decimal,
  read_decimal-decimal, decimal_front, hex_byte, read_hex_byte, read_hex_byte_digits, arith,
}
use fish_term.Theme.{Theme}
use fish_term.Terminal.Replies.{
  hex_text, xt_get_t_cap_reply, rgb_reply_text, palette_color, palette_index, strtol, digits_of,
  resolve_kitty_color_query,
}

-- The bytes before the first `=` or ESC, and the rest.
read_name : Bytes → Bytes × Bytes
read_name [] = ([], [])
read_name (b ∷ bs) =
    let (name, rest) = read_name bs in
    if b == b'=' || b == 27 then ([], b ∷ bs) else (b ∷ name, rest)

push : Option ℕ → Option Bytes → Option Bytes
push (some b) (some bs) = some (b ∷ bs)
push b bs = none

-- Pairs of hexadecimal digits up to ESC and a backslash, with which the text ends.
read_pairs : Bytes → Option Bytes
unfolding push
read_pairs [] = none
read_pairs (a ∷ []) = none
read_pairs (a ∷ b ∷ []) = if a == 27 && b == b'\\' then some [] else none
read_pairs (a ∷ b ∷ c ∷ rest) = push (read_hex_byte a b) (read_pairs (c ∷ rest))

read_value : Bytes × Bytes → Option (Bytes × Option Bytes)
unfolding read_pairs
read_value (name, []) = none
read_value (name, b ∷ rest) =
    if b == b'='
    then elim (read_pairs rest) [ none ↦ none | some value ↦ some (name, some value) ]
    else if eqb_bytes (b ∷ rest) (27 ∷ b'\\' ∷ [])
    then some (name, none)
    else none

-- A reply to a capability query: its encoded name, and its value where it has one.
unfoldable pub read_capability : Bytes → Option (Bytes × Option Bytes)
unfolding read_value read_name
read_capability (a ∷ b ∷ c ∷ d ∷ e ∷ rest) =
    if eqb_bytes (a ∷ b ∷ c ∷ d ∷ e ∷ []) (27 ∷ codes "P1+r")
    then read_value (read_name rest)
    else none
read_capability bs = none

-- Names without `=` and ESC, as hexadecimal digits are.
abbrev pub IsName : Bytes → Type 0
IsName [] = Unit
IsName (b ∷ bs) = ((b == b'=' || b == 27) ≡ false) × IsName bs

abbrev pub AllBytes : Bytes → Type 0
AllBytes [] = Unit
AllBytes (b ∷ bs) = (b < 256) × AllBytes bs

read_name-IsName :
    (name rest : Bytes) (b : ℕ)
    → IsName name
    → (b == b'=' || b == 27) ≡ true
    → read_name (name ++ b ∷ rest) ≡ (name, b ∷ rest)
unfolding read_name
read_name-IsName [] rest b n e = rw e refl
read_name-IsName (a ∷ name) rest b n e = rw (n.0) (rw (read_name-IsName name rest b n.1 e) refl)

read_pairs-hex_text :
    (value : Bytes) → AllBytes value → read_pairs (hex_text value ++ 27 ∷ b'\\' ∷ []) ≡ some value
unfolding read_pairs hex_text hex_byte
read_pairs-hex_text [] small = refl
read_pairs-hex_text (b ∷ []) small = rw (read_hex_byte_digits true b small.0) refl
read_pairs-hex_text (b ∷ c ∷ value) small =
    rw (read_hex_byte_digits true b small.0) (rw (read_pairs-hex_text (c ∷ value) small.1) refl)

-- The reply about a capability reads as its encoded name, in which no `=` or ESC stands, with the
-- value if it has one.
pub read_capability-reply :
    (name value : Bytes) (has_value : Bool)
    → IsName name
    → AllBytes value
    → read_capability (xt_get_t_cap_reply name value has_value)
      ≡ some (name, if has_value then some value else none)
unfolding read_capability xt_get_t_cap_reply
read_capability-reply name value true n small =
    rw (read_name-IsName name (hex_text value ++ 27 ∷ b'\\' ∷ []) 61 n refl)
      (rw (read_pairs-hex_text value small) refl)
read_capability-reply name value false n small =
    rw (read_name-IsName name (b'\\' ∷ []) 27 n refl) refl

strtol_digit : (b : ℕ) (bs : Bytes) → is_digit b ≡ true → strtol (b ∷ bs) ≡ digits_of false (b ∷ bs)
unfolding strtol
strtol_digit b bs h =
    let not_space : is_white b ≡ false = ground arith in
    let not_minus : (b == b'-') ≡ false = ground arith in
    let not_plus : (b == b'+') ≡ false = ground arith in
    rw not_space (rw not_minus (rw not_plus refl))

digits_of_digit :
    (b : ℕ) (bs : Bytes)
    → is_digit b ≡ true
    → digits_of false (b ∷ bs)
      ≡ some (false, (read_decimal 0 (b ∷ bs)).0, (read_decimal 0 (b ∷ bs)).1)
unfolding digits_of
digits_of_digit b bs h = rw h refl

strtol-decimal : (n : ℕ) → strtol (decimal n) ≡ some (false, n, [])
strtol-decimal n =
    let (b, bs, e, digit) = decimal_front n in
    let read : read_decimal 0 (b ∷ bs) ≡ (n, []) =
      ap (read_decimal 0) (sym e ∙ sym (append-nil (decimal n))) ∙ read_decimal-decimal n [] in
    rw e (strtol_digit b bs digit ∙ digits_of_digit b bs digit ∙ rw read refl)

palette_index-decimal : (n : ℕ) → n < 256 → palette_index (decimal n) ≡ some n
unfolding palette_index
palette_index-decimal n h = rw (strtol-decimal n, palette_index) (ground arith)

-- No keyword of `ResolveKittyColorQuery` starts with a digit.
not_keyword :
    (b : ℕ) (bs : Bytes)
    → is_digit b ≡ true
    → (eqb_bytes (b ∷ bs) (codes "foreground") ≡ false)
      × (eqb_bytes (b ∷ bs) (codes "background") ≡ false)
      × (eqb_bytes (b ∷ bs) (codes "cursor") ≡ false)
not_keyword b bs h =
    let f : (b == b'f') ≡ false = ground arith in
    let g : (b == b'b') ≡ false = ground arith in
    let c : (b == b'c') ≡ false = ground arith in (rw f refl, rw g refl, rw c refl)

-- A query for a number below 256 is answered with the colour of the palette of that number, or with
-- the foreground where the palette has no such colour.
pub resolve_kitty_color_query-decimal :
    (n : ℕ) (theme : Theme)
    → n < 256
    → resolve_kitty_color_query (decimal n) theme ≡ some (rgb_reply_text (palette_color theme n))
unfolding resolve_kitty_color_query
resolve_kitty_color_query-decimal n theme h =
    let (b, bs, e, digit) = decimal_front n in
    let (f, g, c) = not_keyword b bs digit in
    let index : palette_index (b ∷ bs) ≡ some n =
      ap palette_index (sym e) ∙ palette_index-decimal n h in
    rw e (rw f (rw g (rw c (rw index refl))))
