-- ===== src/Prelude/Buffer.antt =====
-- Writes to a vector by index. A write out of range is undefined in the source: here it faults.
use Prim.Native.Nat.{ℕ, zero, suc, ◌+◌, ◌≤◌, ◌<◌}
use mathlib.Core.Path.{◌≡◌, refl, ap, ◌∙◌}
use mathlib.Core.Bool.{Bool, ◌&&◌}
use mathlib.Core.Option.{Option, none, some}
use mathlib.Core.List.{List, [], ◌∷◌}
use native.Mathlib.Omega.{arith}
use fish_term.Prelude.Tests.{ltb, leb, ◌==◌, if◌then◌else◌, lt→ltb}
use fish_term.Prelude.Lists.{length, get_elem?, set, length-set}
use fish_term.Prelude.Loops.{Returns, Returns-mono, for_range, for_range_inv}

-- `j` lies in the half-open span from `lo` to `hi`.
abbrev pub in_span : ℕ → ℕ → ℕ → Bool
in_span lo hi j = leb lo j && ltb j hi

module _ {A : Type 0} where
  unfoldable pub store : List A → ℕ → A → Option (List A)
  store b i v = if ltb i (length b) then some (set b i v) else none

  -- The loop that writes `v` at `base + lo` up to `base + lo + n - 1`.
  unfoldable pub fill : ℕ → ℕ → ℕ → A → List A → Option (List A)
  fill base n lo v = for_range n lo (λ c b. store b (base + c) v)

  -- `b` has `n` elements, and `f` says which.
  pub record Holds (n : ℕ) (f : ℕ → Option A) (b : List A) : Type 0 where
    pub size : length b ≡ n
    pub at : (j : ℕ) → get_elem? b j ≡ f j

  pub Holds-self : {n : ℕ} (b : List A) → length b ≡ n → Holds n (get_elem? b) b
  Holds-self b e = record { size = e; at = λ j. refl }

  pub Holds-ext :
      {n : ℕ} {f g : ℕ → Option A} (b : List A) → ((j : ℕ) → f j ≡ g j) → Holds n f b → Holds n g b
  Holds-ext b e h = record { size = h.size; at = λ j. h.at j ∙ e j }

  get_elem?-set :
      (xs : List A) (i j : ℕ) (v : A)
      → i < length xs
      → get_elem? (set xs i v) j ≡ (if j == i then some v else get_elem? xs j)
  get_elem?-set [] i j v h = elim h [ ]
  get_elem?-set (x ∷ xs) zero zero v h = refl
  get_elem?-set (x ∷ xs) zero (suc j) v h = ground arith
  get_elem?-set (x ∷ xs) (suc i) zero v h = ground arith
  get_elem?-set (x ∷ xs) (suc i) (suc j) v h = get_elem?-set xs i j v (omega arith) ∙ ground arith

  pub store_lem :
      {n : ℕ} {f : ℕ → Option A} (b : List A) (i : ℕ) (v : A)
      → Holds n f b
      → i < n
      → Returns (store b i v) (Holds n (λ j. if j == i then some v else f j))
  unfolding store
  store_lem {n} {f} b i v h lt =
      let inside : i < length b = omega (arith, h.size) in
      rw (lt→ltb i (length b) inside) (record {
        size = length-set b i v ∙ h.size;
        at = λ j. get_elem?-set b i j v inside ∙ ap (λ o. if j == i then some v else o) (h.at j);
      })

  fill_step :
      (base lo c : ℕ) (v : A) (f : ℕ → Option A) (j : ℕ)
      → lo ≤ c
      → (if j == base + c then some v else if in_span (base + lo) (base + c) j then some v else f j)
        ≡ (if in_span (base + lo) (base + (c + 1)) j then some v else f j)
  fill_step base lo c v f j h = ground arith

  -- `fill` writes its span and nothing else, and never faults within the buffer.
  pub fill_lem :
      {size : ℕ} {f : ℕ → Option A} (base n lo hi : ℕ) (v : A) (b : List A)
      → Holds size f b
      → lo + n ≡ hi
      → base + hi ≤ size
      → Returns
          (fill base n lo v b)
          (Holds size (λ j. if in_span (base + lo) (base + hi) j then some v else f j))
  unfolding fill
  fill_lem {size} {f} base n lo hi v b h e inside =
      for_range_inv written _ n lo hi b e round (Holds-ext b (λ j. ground arith) h)
    where
      written : ℕ → List A → Type 0
      written c = Holds size (λ j. if in_span (base + lo) (base + c) j then some v else f j)

      round :
          (c : ℕ) (t : List A)
          → lo ≤ c
          → c < hi
          → written c t
          → Returns (store t (base + c) v) (written (c + 1))
      round c t low high w =
          Returns-mono _ (written (c + 1)) (store t (base + c) v)
            (store_lem t (base + c) v w (omega arith))
            λ u. Holds-ext u (λ j. fill_step base lo c v f j low)
