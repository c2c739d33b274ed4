-- ===== src/Host/Keys/Shape.antt =====
-- What a key sends: one ASCII byte, or an escape sequence.
use fish_term.Prelude.{
  ℕ, zero, suc, ◌+◌, ◌-◌, ◌<◌, ◌≡◌, refl, ◌∙◌, Bool, true, false, ◌&&◌, [], ◌∷◌, Option, none, some,
  arith, leb, if◌then◌else◌, Bytes, codes, switch-AllCases, Bool-cases, Option-cases, inl, inr,
  get_elem?,
}
use fish_term.Host.Keys.{
  Key, linux, letter, digit, numpad, function_key, key_tab, Modifiers, build_key_sequence,
  letter_cases, symbol_cases, named_cases, function_cases, letter_offset, symbol, linux_symbol,
  append_printable_key, linux_named, function_sequence, named_sequence, plain_sequence, alt_prefix,
}

-- One ASCII byte, or more bytes of which the first is the escape byte.
abbrev pub IsSequence : Bytes → Type 0
IsSequence [] = 1 < 0
IsSequence (b ∷ []) = b < 128
IsSequence (b ∷ c ∷ s) = b ≡ 27

linux_named-IsSequence :
    (code : ℕ) (shift : Bool) (s : Bytes) → linux_named code shift ≡ some s → IsSequence s
unfolding linux_named
linux_named-IsSequence code true s e =
    switch-AllCases (λ k a. IsSequence a) code (named_cases true) s e (omega arith)
linux_named-IsSequence code false s e =
    switch-AllCases (λ k a. IsSequence a) code (named_cases false) s e (omega arith)

function_sequence-IsSequence : (n : ℕ) (s : Bytes) → function_sequence n ≡ some s → IsSequence s
unfolding function_sequence
function_sequence-IsSequence n s e =
    switch-AllCases (λ k a. IsSequence a) n function_cases s e (omega arith)

named_sequence-IsSequence :
    (key : Key) (shift : Bool) (s : Bytes) → named_sequence key shift ≡ some s → IsSequence s
unfolding named_sequence
named_sequence-IsSequence (linux code) shift s e = linux_named-IsSequence code shift s e
named_sequence-IsSequence (function_key n) shift s e = function_sequence-IsSequence n s e
named_sequence-IsSequence key_tab true s e = ground arith
named_sequence-IsSequence key_tab false s e = ground arith
named_sequence-IsSequence _ shift s e = ground arith

letter_offset-lt : (key : Key) (n : ℕ) → letter_offset key ≡ some n → n < 26
unfolding letter_offset
letter_offset-lt (linux code) n e =
    switch-AllCases (λ k a. a < 26) code letter_cases n e (omega arith)
letter_offset-lt (letter i) n e = ground arith
letter_offset-lt _ n e = cc

linux_symbol-lt : (code c : ℕ) (shift : Bool) → linux_symbol code shift ≡ some c → c < 128
unfolding linux_symbol
linux_symbol-lt code c true e =
    switch-AllCases (λ k a. a < 128) code (symbol_cases true) c e (omega arith)
linux_symbol-lt code c false e =
    switch-AllCases (λ k a. a < 128) code (symbol_cases false) c e (omega arith)

-- The bytes of a row of keys.
abbrev AllBelow : ℕ → Bytes → Type 0
AllBelow n [] = Unit
AllBelow n (b ∷ bs) = (b < n) × AllBelow n bs

get_elem?-AllBelow : (n i c : ℕ) (bs : Bytes) → get_elem? bs i ≡ some c → AllBelow n bs → c < n
get_elem?-AllBelow n i c [] e all = cc
get_elem?-AllBelow n zero c (b ∷ bs) e all = ground arith
get_elem?-AllBelow n (suc i) c (b ∷ bs) e all = get_elem?-AllBelow n i c bs e all.1

symbol-lt : (key : Key) (c : ℕ) (shift : Bool) → symbol key shift ≡ some c → c < 128
unfolding symbol
symbol-lt (linux code) c true e = elim (Bool-cases (leb 2 code && leb code 11)) [
  | inl inside ↦
      get_elem?-AllBelow 128 (code - 2) c (codes "!@#$%^&*()") (rw inside at e) (omega arith)
  | inr outside ↦ linux_symbol-lt code c true (rw outside at e)
]
symbol-lt (linux code) c false e = elim (Bool-cases (leb 2 code && leb code 11)) [
  | inl inside ↦
      get_elem?-AllBelow 128 (code - 2) c (codes "1234567890") (rw inside at e) (omega arith)
  | inr outside ↦ linux_symbol-lt code c false (rw outside at e)
]
symbol-lt (digit n) c true e = elim (Bool-cases (leb n 9)) [
  | inl inside ↦ get_elem?-AllBelow 128 n c (codes ")!@#$%^&*(") (rw inside at e) (omega arith)
  | inr outside ↦ absurd (cc (rw outside at e))
]
symbol-lt (digit n) c false e = elim (Bool-cases (leb n 9)) [
  | inl inside ↦ get_elem?-AllBelow 128 n c (codes "0123456789") (rw inside at e) (omega arith)
  | inr outside ↦ absurd (cc (rw outside at e))
]
symbol-lt (numpad n) c shift e = ground arith
symbol-lt _ c true e = ground arith
symbol-lt _ c false e = ground arith

append_printable_key-lt :
    (key : Key) (shift caps_lock : Bool) (c : ℕ)
    → append_printable_key key shift caps_lock ≡ some c
    → c < 128
unfolding append_printable_key
append_printable_key-lt key shift caps_lock c e = elim (Option-cases (letter_offset key)) [
  | inl none_found ↦ symbol-lt key c shift (rw (none_found, append_printable_key) at e)
  | inr (n, found) ↦
      (let small = letter_offset-lt key n found in
        let byte = rw (found, append_printable_key) at e in ground arith)
]

alt_prefix-IsSequence :
    (alt : Bool) (printable : Option ℕ) (s : Bytes)
    → ((c : ℕ) → printable ≡ some c → c < 128)
    → alt_prefix alt printable ≡ some s
    → IsSequence s
unfolding alt_prefix
alt_prefix-IsSequence alt none s small e = cc
alt_prefix-IsSequence true (some b) s small e = ground arith
alt_prefix-IsSequence false (some b) s small e = ground (arith, small b refl)

plain_sequence-IsSequence :
    (key : Key) (m : Modifiers) (caps_lock : Bool) (s : Bytes)
    → plain_sequence key m caps_lock ≡ some s
    → IsSequence s
unfolding plain_sequence
plain_sequence-IsSequence key m caps_lock s e =
    go m.ctrl (letter_offset key) (letter_offset-lt key) e
  where
    printable :
        (s : Bytes)
        → alt_prefix m.alt (append_printable_key key m.shift caps_lock) ≡ some s
        → IsSequence s
    printable s h =
        alt_prefix-IsSequence m.alt (append_printable_key key m.shift caps_lock) s
          (append_printable_key-lt key m.shift caps_lock) h

    go :
        (ctrl : Bool) (offset : Option ℕ)
        → ((n : ℕ) → offset ≡ some n → n < 26)
        → (if ctrl
            then elim offset [
              | some n ↦ some ((1 + n) ∷ [])
              | none ↦ alt_prefix m.alt (append_printable_key key m.shift caps_lock)
            ]
            else alt_prefix m.alt (append_printable_key key m.shift caps_lock))
          ≡ some s
        → IsSequence s
    go false offset small h = printable s h
    go true none small h = printable s h
    go true (some n) small h = ground (arith, small n refl)

-- Whatever the key, the modifiers and CapsLock, what a key sends is one ASCII byte, or more bytes of
-- which the first is the escape byte. It is never empty.
pub build_key_sequence-IsSequence :
    (key : Key) (m : Modifiers) (caps_lock : Bool) (s : Bytes)
    → build_key_sequence key m caps_lock ≡ some s
    → IsSequence s
unfolding build_key_sequence
build_key_sequence-IsSequence key m caps_lock s e =
    elim (Option-cases (named_sequence key m.shift)) [
      | inl unnamed ↦
          plain_sequence-IsSequence key m caps_lock s (rw (unnamed, build_key_sequence) at e)
      | inr (t, named) ↦
          named_sequence-IsSequence key m.shift s (named ∙ rw (named, build_key_sequence) at e)
    ]
