-- ===== src/Screen/Rows/Move.antt =====
-- What a buffer holds after rows are moved up or down inside it.
use fish_term.Prelude.{
  ℕ, ◌+◌, ◌-◌, ◌*◌, ◌≤◌, ◌<◌, ◌≡◌, ap, ◌⊎◌, inl, inr, List, get_elem?, get_elem?-total, Option,
  some, ◌>>=◌, Returns, Returns-mono, for_range_inv, for_down_inv, store, store_lem, Holds,
  Holds-ext, in_span, mul_mono, row_fits, if◌then◌else◌, ◌==◌, arith,
}
use fish_term.Screen.Cell.{Cell}
use fish_term.Screen.Rows.{copy_row, rows_up, rows_down}

copy_row_step :
    (f : ℕ → Option Cell) (from to c j : ℕ) (x : Cell)
    → f (from + c) ≡ some x
    → (if j == to + c then some x else if in_span to (to + c) j then f (from + (j - to)) else f j)
      ≡ (if in_span to (to + (c + 1)) j then f (from + (j - to)) else f j)
copy_row_step f from to c j x e = ground (arith, λ (p : j ≡ to + c). ap f (index_eq p))
  where
    index_eq : j ≡ to + c → from + (j - to) ≡ from + c
    index_eq p = omega arith

module _ {size : ℕ} {f : ℕ → Option Cell} where
  -- One row copied over another that it does not meet.
  copy_row_lem :
      (cols from to : ℕ) (b : List Cell)
      → Holds size f b
      → from + cols ≤ size
      → to + cols ≤ size
      → (from + cols ≤ to) ⊎ (to + cols ≤ from)
      → Returns
          (copy_row cols from to b)
          (Holds size (λ j. if in_span to (to + cols) j then f (from + (j - to)) else f j))
  unfolding copy_row
  copy_row_lem cols from to b h p q apart =
      for_range_inv done _ cols 0 cols b (omega arith) round (Holds-ext b (λ j. ground arith) h)
    where
      done : ℕ → List Cell → Type 0
      done c = Holds size (λ j. if in_span to (to + c) j then f (from + (j - to)) else f j)

      source :
          (t : List Cell) (c : ℕ) (x : Cell)
          → c < cols
          → done c t
          → get_elem? t (from + c) ≡ some x
          → f (from + c) ≡ some x
      source t c x hi w e = ground (arith, w.at (from + c))

      round :
          (c : ℕ) (t : List Cell)
          → 0 ≤ c
          → c < cols
          → done c t
          → Returns (get_elem? t (from + c) >>= λ x. store t (to + c) x) (done (c + 1))
      round c t lo hi w =
          let (x, e) = get_elem?-total t (from + c) (omega (arith, w.size)) in
          rw e (
            Returns-mono _ (done (c + 1)) (store t (to + c) x)
              (store_lem t (to + c) x w (omega arith))
              λ u. Holds-ext u (λ j. copy_row_step f from to c j x (source t c x hi w e)))

-- Rows up to `r` moved up: the next row comes from a row that is not moved yet.
rows_up_step :
    (f : ℕ → Option Cell) (cols lines first r j : ℕ)
    → first ≤ r
    → 0 < lines
    → (if in_span (r * cols) (r * cols + cols) j
        then (if in_span (first * cols) (r * cols) ((r + lines) * cols + (j - r * cols))
            then f ((r + lines) * cols + (j - r * cols) + lines * cols)
            else f ((r + lines) * cols + (j - r * cols)))
        else if in_span (first * cols) (r * cols) j
        then f (j + lines * cols)
        else f j)
      ≡ (if in_span (first * cols) ((r + 1) * cols) j then f (j + lines * cols) else f j)
rows_up_step f cols lines first r j h pos = ground (arith, mul_mono first r cols, same)
  where
    same : r * cols ≤ j → f ((r + lines) * cols + (j - r * cols)) ≡ f (j + lines * cols)
    same p = ap f (omega arith)

rows_down_step :
    (f : ℕ → Option Cell) (cols lines r last j : ℕ)
    → lines ≤ r
    → r < last
    → (if in_span (r * cols) (r * cols + cols) j
        then (if in_span ((r + 1) * cols) (last * cols) ((r - lines) * cols + (j - r * cols))
            then f ((r - lines) * cols + (j - r * cols) - lines * cols)
            else f ((r - lines) * cols + (j - r * cols)))
        else if in_span ((r + 1) * cols) (last * cols) j
        then f (j - lines * cols)
        else f j)
      ≡ (if in_span (r * cols) (last * cols) j then f (j - lines * cols) else f j)
rows_down_step f cols lines r last j h lt =
    ground (arith, mul_mono lines r cols, mul_mono (r + 1) last cols, product, same)
  where
    product : (r - lines) * cols + lines * cols ≡ r * cols
    product =
        let e : r - lines + lines ≡ r = omega arith in omega (arith, ap (λ (t : ℕ). t * cols) e)

    same : r * cols ≤ j → f ((r - lines) * cols + (j - r * cols)) ≡ f (j - lines * cols)
    same p = ap f (omega (arith, product, mul_mono lines r cols h))

module _ {size : ℕ} {f : ℕ → Option Cell} where
  pub rows_up_lem :
      (cols lines n first to : ℕ) (b : List Cell)
      → Holds size f b
      → 0 < lines
      → first + n ≡ to
      → (to + lines) * cols ≤ size
      → Returns (rows_up cols lines n first b) (
          Holds size
            (λ j. if in_span (first * cols) (to * cols) j then f (j + lines * cols) else f j))
  unfolding rows_up
  rows_up_lem cols lines n first to b h pos e fits =
      for_range_inv done _ n first to b e round (Holds-ext b (λ j. ground arith) h)
    where
      done : ℕ → List Cell → Type 0
      done r =
          Holds size
            (λ j. if in_span (first * cols) (r * cols) j then f (j + lines * cols) else f j)

      round :
          (r : ℕ) (t : List Cell)
          → first ≤ r
          → r < to
          → done r t
          → Returns (copy_row cols ((r + lines) * cols) (r * cols) t) (done (r + 1))
      round r t lo hi w =
          Returns-mono _ (done (r + 1)) (copy_row cols ((r + lines) * cols) (r * cols) t)
            (copy_row_lem cols ((r + lines) * cols) (r * cols) t w
              (omega (arith, row_fits (r + lines) (to + lines) cols (omega arith)))
              (omega (arith, row_fits r (to + lines) cols (omega arith)))
              (inr (omega (arith, row_fits r (r + lines) cols (omega arith)))))
            λ u. Holds-ext u (λ j. rows_up_step f cols lines first r j lo pos)

  pub rows_down_lem :
      (cols lines n first to : ℕ) (b : List Cell)
      → Holds size f b
      → 0 < lines
      → lines ≤ first
      → first + n ≡ to
      → to * cols ≤ size
      → Returns (rows_down cols lines n first b) (
          Holds size
            (λ j. if in_span (first * cols) (to * cols) j then f (j - lines * cols) else f j))
  unfolding rows_down
  rows_down_lem cols lines n first to b h pos below e fits =
      for_down_inv done _ n first to b e round (Holds-ext b (λ j. ground arith) h)
    where
      done : ℕ → List Cell → Type 0
      done r =
          Holds size (λ j. if in_span (r * cols) (to * cols) j then f (j - lines * cols) else f j)

      round :
          (r : ℕ) (t : List Cell)
          → first ≤ r
          → r < to
          → done (r + 1) t
          → Returns (copy_row cols ((r - lines) * cols) (r * cols) t) (done r)
      round r t lo hi w =
          Returns-mono _ (done r) (copy_row cols ((r - lines) * cols) (r * cols) t)
            (copy_row_lem cols ((r - lines) * cols) (r * cols) t w
              (omega (arith, row_fits (r - lines) to cols (omega arith)))
              (omega (arith, row_fits r to cols (omega arith)))
              (inl (omega (arith, row_fits (r - lines) r cols (omega arith)))))
            λ u. Holds-ext u (λ j. rows_down_step f cols lines r to j (omega arith) hi)
