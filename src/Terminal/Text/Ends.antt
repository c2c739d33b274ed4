-- ===== src/Terminal/Text/Ends.antt =====
-- Lists cut behind their last element with a property, and the loop that finds that element.
use fish_term.Prelude.{
  ℕ, ◌+◌, ◌≡◌, refl, ap, ◌∙◌, Bool, true, false, not, inl, inr, List, [], ◌∷◌, ◌++◌, length, take,
  leb, ◌==◌, if◌then◌else◌, Bool-cases, Bytes, arith,
}
use fish_term.Utf8.{utf8, byte, continuation}
use fish_term.Utf8.RoundTrip.{or_80}
use fish_term.Terminal.Cells.{last_from}

-- An element in front of a list that is cut, kept for its own sake or for what follows it.
abbrev pub keep {ℓ} : {A : Type ℓ} → Bool → A → List A → List A
keep true x [] = x ∷ []
keep false x [] = []
keep b x (y ∷ ys) = x ∷ y ∷ ys

-- A list up to its last element with a property.
abbrev pub trim_end {ℓ} : {A : Type ℓ} → (A → Bool) → List A → List A
trim_end p [] = []
trim_end p (x ∷ xs) = keep (p x) x (trim_end p xs)

last_end {ℓ} : {A : Type ℓ} → ℕ → ℕ → List A → ℕ
last_end col last [] = last
last_end col last (x ∷ xs) = col + length (x ∷ xs)

-- The loop that finds the last element finds the end of that list.
last_from_lem {ℓ} :
    {A : Type ℓ} (p : A → Bool) (col last : ℕ) (xs : List A)
    → last_from p col last xs ≡ last_end col last (trim_end p xs)
unfolding last_from last_end
last_from_lem p col last [] = refl
last_from_lem {A = A} p col last (x ∷ xs) =
    last_from_lem p (col + 1) (if p x then col + 1 else last) xs ∙ go (trim_end p xs) (p x)
  where
    go :
        (t : List A) (b : Bool)
        → last_end (col + 1) (if b then col + 1 else last) t ≡ last_end col last (keep b x t)
    go [] true = refl
    go [] false = refl
    go (y ∷ ys) true = omega arith
    go (y ∷ ys) false = omega arith

take-trim_end {ℓ} :
    {A : Type ℓ} (p : A → Bool) (xs : List A) → take (length (trim_end p xs)) xs ≡ trim_end p xs
take-trim_end p [] = refl
take-trim_end {A = A} p (x ∷ xs) = go (trim_end p xs) (p x) (take-trim_end p xs)
  where
    go :
        (t : List A) (b : Bool)
        → take (length t) xs ≡ t
        → take (length (keep b x t)) (x ∷ xs) ≡ keep b x t
    go [] true e = refl
    go [] false e = refl
    go (y ∷ ys) true e = ap (λ t. x ∷ t) e
    go (y ∷ ys) false e = ap (λ t. x ∷ t) e

last_end-length {ℓ} : {A : Type ℓ} (xs : List A) → last_end 0 0 xs ≡ length xs
unfolding last_end
last_end-length [] = refl
last_end-length (x ∷ xs) = omega arith

pub last_from-length {ℓ} :
    {A : Type ℓ} (p : A → Bool) (xs : List A) → last_from p 0 0 xs ≡ length (trim_end p xs)
last_from-length p xs = last_from_lem p 0 0 xs ∙ last_end-length (trim_end p xs)

pub take-last_from {ℓ} :
    {A : Type ℓ} (p : A → Bool) (xs : List A) → take (last_from p 0 0 xs) xs ≡ trim_end p xs
take-last_from p xs = ap (λ n. take n xs) (last_from-length p xs) ∙ take-trim_end p xs

abbrev pub is_not_space : ℕ → Bool
is_not_space b = not (b == b' ')

abbrev pub AreSpaces : Bytes → Type 0
AreSpaces [] = Unit
AreSpaces (b ∷ bs) = (b ≡ b' ') × AreSpaces bs

pub append-AreSpaces : (s t : Bytes) → AreSpaces s → AreSpaces t → AreSpaces (s ++ t)
append-AreSpaces [] t p q = q
append-AreSpaces (b ∷ s) t p q = (p.0, append-AreSpaces s t p.1 q)

trim_spaces : (s : Bytes) → AreSpaces s → trim_end is_not_space s ≡ []
trim_spaces [] p = refl
trim_spaces (b ∷ s) p = rw (p.0, trim_spaces s p.1) refl

pub trim-append_spaces :
    (s t : Bytes) → AreSpaces t → trim_end is_not_space (s ++ t) ≡ trim_end is_not_space s
trim-append_spaces [] t p = trim_spaces t p
trim-append_spaces (b ∷ s) t p = ap (keep (is_not_space b) b) (trim-append_spaces s t p)

-- A text whose last byte is not a space.
abbrev pub IsFull : Bytes → Type 0
IsFull s = (b : ℕ) × (bs : Bytes) × (s ≡ b ∷ bs) × (trim_end is_not_space s ≡ s)

pub append-IsFull : (s t : Bytes) → IsFull t → IsFull (s ++ t)
append-IsFull [] t full = full
append-IsFull (a ∷ s) t full =
    let (b, bs, e, same) = append-IsFull s t full in
    (a, s ++ t, refl, ap (keep (is_not_space a) a) same ∙ go (is_not_space a) (s ++ t) b bs e)
  where
    go : (x : Bool) (u : Bytes) (b : ℕ) (bs : Bytes) → u ≡ b ∷ bs → keep x a u ≡ a ∷ u
    go x [] b bs e = cc
    go true (c ∷ u) b bs e = refl
    go false (c ∷ u) b bs e = refl

byte-IsFull : (b : ℕ) → (b == b' ') ≡ false → IsFull (b ∷ [])
byte-IsFull b other = (b, [], refl, rw other refl)

continuation-IsFull : (x : ℕ) → IsFull (continuation x ∷ [])
continuation-IsFull x = byte-IsFull (continuation x) (let e = or_80 x in ground arith)

pub utf8-IsFull : (cp : ℕ) → (cp == b' ') ≡ false → IsFull (utf8 cp)
unfolding utf8
utf8-IsFull cp other = elim (Bool-cases (leb cp 0x7F)) [
  | inl small ↦ rw small (byte-IsFull (byte cp) (ground arith))
  | inr big ↦ rw big (elim (Bool-cases (leb cp 0x7FF)) [
    | inl two ↦ rw two (append-IsFull (_ ∷ []) (continuation cp ∷ []) (continuation-IsFull cp))
    | inr more ↦ rw more (elim (Bool-cases (leb cp 0xFFFF)) [
      | inl three ↦
          rw three (append-IsFull (_ ∷ _ ∷ []) (continuation cp ∷ []) (continuation-IsFull cp))
      | inr four ↦
          rw four (append-IsFull (_ ∷ _ ∷ _ ∷ []) (continuation cp ∷ []) (continuation-IsFull cp))
    ])
  ])
]
