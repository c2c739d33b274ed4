-- ===== src/Screen/Scroll/History.antt =====
-- What the scrollback holds after lines are saved: the newest `m_maxScrollback` lines, in order.
use mathlib.Core.List.{append_assoc}
use native.Mathlib.Numerals.{add-one}
use fish_term.Prelude.{
  ℕ, zero, suc, ◌+◌, ◌-◌, ◌*◌, ◌≤◌, ◌<◌, ◌≡◌, refl, ◌∙◌, ap, List, [], ◌∷◌, ◌++◌, length, get_elem?,
  take, drop, replicate, length-take, length-replicate, get_elem?-take, get_elem?-drop,
  get_elem?-total, get_elem?-above, list_ext, last_lines, last_lines-append, Option, some, ◌>>=◌,
  pos, nonneg_eq, ◌≤ℤ◌, pos_part, ltb, ◌==◌, if◌then◌else◌, Bool-cases, inl, inr, for_range_inv,
  Returns, Returns-mono, Returns-some, store, store_lem, Holds, Holds-self, Holds-ext, row_fits,
  arith,
}
use fish_term.Screen.Cell.{Cell, blank}
use fish_term.Screen.State.{Screen, IsGrid}
use fish_term.Screen.Scroll.{trim, add_line_to_scrollback, read_row, save_lines}

-- The loop of erasures from the front keeps the last `k` elements.
pub trim-last_lines {ℓ} :
    {A : Type ℓ} (k : ℕ) (xs : List A) → trim (pos k) xs ≡ some (last_lines k xs)
unfolding trim
trim-last_lines k [] = ground arith
trim-last_lines k (x ∷ xs) = elim (Bool-cases (ltb k (suc (length xs)))) [
  | inl over ↦
      let e : suc (length xs) - k ≡ suc (length xs - k) = ground arith in
      rw e (ground (arith, trim-last_lines k xs))
  | inr under ↦ let e : suc (length xs) - k ≡ 0 = ground arith in rw e (ground arith)
]

-- Row `i` of a buffer of rows of `cols` cells.
abbrev pub row_of : ℕ → List Cell → ℕ → List Cell
row_of cols b i = take cols (drop (i * cols) b)

-- The first `n` rows.
abbrev pub first_rows : ℕ → List Cell → ℕ → List (List Cell)
first_rows cols b zero = []
first_rows cols b (suc n) = first_rows cols b n ++ row_of cols b n ∷ []

read_row_step :
    (f g : ℕ → Option Cell) (c j : ℕ) (x : Cell)
    → f c ≡ some x
    → (if j == c then some x else if ltb j c then f j else g j)
      ≡ (if ltb j (c + 1) then f j else g j)
read_row_step f g c j x e = ground (arith, λ (p : j ≡ c). ap f p)

pub read_row_lem :
    (cols i : ℕ) (b : List Cell)
    → i * cols + cols ≤ length b
    → read_row cols i b ≡ some (row_of cols b i)
unfolding read_row
read_row_lem cols i b fits =
    let (line, e, h) = Returns-some (filled cols) _ loop in
    e ∙ ap some (list_ext line _ (same line h))
  where
    old : List Cell
    old = replicate cols blank

    filled : ℕ → List Cell → Type 0
    filled c = Holds cols (λ j. if ltb j c then get_elem? b (i * cols + j) else get_elem? old j)

    round :
        (c : ℕ) (t : List Cell)
        → 0 ≤ c
        → c < cols
        → filled c t
        → Returns (get_elem? b (i * cols + c) >>= λ x. store t c x) (filled (c + 1))
    round c t lo hi w =
        let (x, e) = get_elem?-total b (i * cols + c) (omega arith) in
        rw e (
          Returns-mono _ (filled (c + 1)) (store t c x) (store_lem t c x w hi) λ u.
            Holds-ext u
              (λ j. read_row_step (λ j. get_elem? b (i * cols + j)) (get_elem? old) c j x e))

    loop : Returns (read_row cols i b) (filled cols)
    loop =
        for_range_inv filled _ cols 0 cols old (omega arith) round
          (Holds-ext old (λ j. ground arith) (Holds-self old (length-replicate cols blank)))

    same :
        (line : List Cell)
        → filled cols line
        → (j : ℕ) → get_elem? line j ≡ get_elem? (row_of cols b i) j
    same line h j = elim (Bool-cases (ltb j cols)) [
      | inl in_row ↦
          ground (
            arith,
            h.at j,
            get_elem?-take cols j (drop (i * cols) b),
            get_elem?-drop (i * cols) j b,
          )
      | inr past ↦ ground (
        arith,
        h.size,
        get_elem?-above line j,
        get_elem?-above (row_of cols b i) j,
        length-take cols (drop (i * cols) b),
      )
    ]

-- Adding a line trims the scrollback to its bound.
pub add_line_lem :
    (line : List Cell) (s : Screen)
    → pos 0 ≤ℤ s.max_scrollback
    → add_line_to_scrollback line s
      ≡ some (record s {
        scrollback = last_lines (pos_part s.max_scrollback) (s.scrollback ++ line ∷ []);
      })
unfolding add_line_to_scrollback
add_line_lem line s h = rw (nonneg_eq s.max_scrollback h) (rw trim-last_lines)

-- The scrollback after the first `n` rows are saved behind `old`.
abbrev pub history : Screen → ℕ → List (List Cell)
history s n = last_lines (pos_part s.max_scrollback) (s.scrollback ++ first_rows s.cols s.buffer n)

-- The scrollback inside the loop, after `n` rounds.
abbrev kept : Screen → ℕ → List (List Cell)
kept s zero = s.scrollback
kept s (suc n) = history s (suc n)

kept_step :
    (s : Screen) (n : ℕ)
    → last_lines (pos_part s.max_scrollback) (kept s n ++ row_of s.cols s.buffer n ∷ [])
      ≡ kept s (suc n)
kept_step s zero = refl
kept_step s (suc n) =
    last_lines-append (pos_part s.max_scrollback)
      (s.scrollback ++ first_rows s.cols s.buffer (suc n)) _
    ∙ ap (last_lines (pos_part s.max_scrollback)) (append_assoc s.scrollback _ _)

save_suc :
    (n : ℕ) (s : Screen)
    → IsGrid s
    → suc n ≤ s.rows
    → save_lines (suc n) s ≡ some (record s { scrollback = history s (suc n) })
unfolding save_lines
save_suc n s v fits = let (t, e, h) = Returns-some (saved (suc n)) _ loop in e ∙ ap some h
  where
    saved : ℕ → Screen → Type 0
    saved i t = t ≡ record s { scrollback = kept s i }

    round :
        (i : ℕ) (t : Screen)
        → 0 ≤ i
        → i < suc n
        → saved i t
        → Returns
            (read_row t.cols i t.buffer >>= λ line. add_line_to_scrollback line t)
            (saved (i + 1))
    round i t lo hi e = rw e (
        rw
          (read_row_lem s.cols i s.buffer
            (omega (arith, v.size, row_fits i s.rows s.cols (omega arith))))
          (rw
            (add_line_lem (row_of s.cols s.buffer i) (record s { scrollback = kept s i })
              v.max_nonneg)
            (rw add-one (ap (λ x. record s { scrollback = x }) (kept_step s i)))))

    loop : Returns (save_lines (suc n) s) (saved (suc n))
    loop = for_range_inv saved _ (suc n) 0 (suc n) s (omega arith) round refl

-- Saving `n` rows puts them behind the lines saved before, and keeps the newest.
pub save_lines-history :
    (n : ℕ) (s : Screen)
    → IsGrid s
    → 0 < n
    → n ≤ s.rows
    → save_lines n s ≡ some (record s { scrollback = history s n })
save_lines-history zero s v h fits = absurd (omega arith)
save_lines-history (suc n) s v h fits = save_suc n s v fits
