-- ===== src/Prelude/Loops.antt =====
-- Computations that may fault (`none`), what they return, and counted loops with one invariant rule.
use Prim.Native.Nat.{ℕ, zero, suc, ◌+◌, ◌≤◌, ◌<◌}
use mathlib.Core.Path.{◌≡◌, refl}
use mathlib.Core.Option.{Option, none, some}
use native.Mathlib.Omega.{arith}

infixl 5 ◌>>=◌
abbrev pub ◌>>=◌ {ℓ κ} : {A : Type ℓ} {B : Type κ} → Option A → (A → Option B) → Option B
none >>= f = none
some a >>= f = f a

-- Total correctness: there is a result, and it satisfies `P`.
abbrev pub Returns {ℓ} : {A : Type ℓ} → Option A → (A → Type 0) → Type 0
Returns none P = ⊥
Returns (some a) P = P a

pub Returns-bind {ℓ κ} :
    {A : Type ℓ} {B : Type κ} (P : A → Type 0) (Q : B → Type 0) (m : Option A) (f : A → Option B)
    → Returns m P
    → ((a : A) → P a → Returns (f a) Q)
    → Returns (m >>= f) Q
Returns-bind P Q none f h k = absurd h
Returns-bind P Q (some a) f h k = k a h

pub Returns-mono {ℓ} :
    {A : Type ℓ} (P Q : A → Type 0) (m : Option A)
    → Returns m P
    → ((a : A) → P a → Q a)
    → Returns m Q
Returns-mono P Q none h k = absurd h
Returns-mono P Q (some a) h k = k a h

-- The value of a computation that returns.
pub Returns-some {ℓ} :
    {A : Type ℓ} (P : A → Type 0) (m : Option A) → Returns m P → (a : A) × (m ≡ some a) × P a
Returns-some P none h = absurd h
Returns-some P (some a) h = (a, refl, h)

-- for (k = i; k < i + n; k++) body
unfoldable pub for_range {ℓ} : {S : Type ℓ} → ℕ → ℕ → (ℕ → S → Option S) → S → Option S
for_range zero i body s = some s
for_range (suc n) i body s = body i s >>= λ t. for_range n (i + 1) body t

-- for (k = i + n - 1; k >= i; k--) body
unfoldable pub for_down {ℓ} : {S : Type ℓ} → ℕ → ℕ → (ℕ → S → Option S) → S → Option S
for_down zero i body s = some s
for_down (suc n) i body s = body (i + n) s >>= λ t. for_down n i body t

-- A loop whose every round succeeds and keeps the invariant ends, and the invariant holds there.
pub for_range_inv {ℓ} :
    {S : Type ℓ} (P : ℕ → S → Type 0) (body : ℕ → S → Option S) (n i j : ℕ) (s : S)
    → i + n ≡ j
    → ((k : ℕ) (t : S) → i ≤ k → k < j → P k t → Returns (body k t) (P (k + 1)))
    → P i s
    → Returns (for_range n i body s) (P j)
unfolding for_range
for_range_inv P body zero i j s e keep h = let e' : i ≡ j = omega arith in rw (← e') h
for_range_inv P body (suc n) i j s e keep h =
    Returns-bind (P (i + 1)) (P j) (body i s) _ (keep i s (omega arith) (omega arith) h) λ t p.
      for_range_inv P body n (i + 1) j t (omega arith) (λ k u lo hi. keep k u (omega arith) hi) p

pub for_down_inv {ℓ} :
    {S : Type ℓ} (P : ℕ → S → Type 0) (body : ℕ → S → Option S) (n i j : ℕ) (s : S)
    → i + n ≡ j
    → ((k : ℕ) (t : S) → i ≤ k → k < j → P (k + 1) t → Returns (body k t) (P k))
    → P j s
    → Returns (for_down n i body s) (P i)
unfolding for_down
for_down_inv P body zero i j s e keep h = let e' : i ≡ j = omega arith in rw e' h
for_down_inv P body (suc n) i j s e keep h =
    Returns-bind (P (i + n)) (P i) (body (i + n) s) _
      (keep (i + n) s (omega arith) (omega arith) (let e' : i + n + 1 ≡ j = omega arith in rw e' h))
      λ t p.
        for_down_inv P body n i (i + n) t (omega arith) (λ k u lo hi. keep k u lo (omega arith)) p
