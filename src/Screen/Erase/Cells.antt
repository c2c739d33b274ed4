-- ===== src/Screen/Erase/Cells.antt =====
-- Which cells `eraseInLine` and `eraseInDisplay` blank, for every mode.
use fish_term.Prelude.{
  ℕ, ◌+◌, ◌-◌, ◌*◌, ◌≤◌, ◌<◌, ◌≡◌, refl, sym, ◌∙◌, ap, subst, length-map, get_elem?-map, Bool, ◌&&◌,
  ◌||◌, List, map, Option, none, some, ◌>>=◌, ℤ, pos, eqb_ℤ, eqb_ℤ→eq, if◌then◌else◌, ltb, leb,
  ◌==◌, Returns, Returns-mono, Holds-self, fill, fill_lem, in_span, row_span, rows_span, row_fits,
  mul_mono, index_fits, get_elem?-total, Bool-cases, inl, inr, arith,
}
use fish_term.Screen.Cell.{Cell, blank}
use fish_term.Screen.State.{Screen, IsGrid, IsValid, cell_at, with_buffer}
use fish_term.Screen.Rows.{blank_rows}
use fish_term.Screen.Rows.Blank.{blank_rows_lem}
use fish_term.Screen.Frame.{Shows, Shows-with_buffer, Shows-ext, Shows-self, Shows-IsValid}
use fish_term.Screen.Erase.{erase_in_line, erase_in_display}

-- The columns of the cursor's row that `eraseInLine` is to blank.
abbrev pub in_line : ℤ → Screen → ℕ → Bool
in_line mode s c =
    if eqb_ℤ mode (pos 0)
    then leb s.cursor_col c
    else if eqb_ℤ mode (pos 1)
    then leb c s.cursor_col
    else eqb_ℤ mode (pos 2)

-- The cells that `eraseInDisplay` is to blank.
abbrev pub in_display : ℤ → Screen → ℕ → ℕ → Bool
in_display mode s r c =
    if eqb_ℤ mode (pos 0)
    then ltb s.cursor_row r || r == s.cursor_row && leb s.cursor_col c
    else if eqb_ℤ mode (pos 1)
    then ltb r s.cursor_row || r == s.cursor_row && leb c s.cursor_col
    else eqb_ℤ mode (pos 2) || eqb_ℤ mode (pos 3)

abbrev pub blanked : (ℕ → ℕ → Bool) → Screen → ℕ → ℕ → Option Cell
blanked p s r c = if p r c then some blank else cell_at s r c

-- A span of the cursor's row, blanked.
line_span :
    (s : Screen) (lo n hi : ℕ)
    → IsValid s
    → lo + n ≡ hi
    → hi ≤ s.cols
    → Returns
        (with_buffer s (fill (s.cursor_row * s.cols) n lo blank s.buffer))
        (Shows (blanked (λ r c. r == s.cursor_row && in_span lo hi c) s) s)
line_span s lo n hi v e fits =
    Shows-with_buffer _ (blanked (λ r c. r == s.cursor_row && in_span lo hi c) s) s _
      (λ r c p q.
        ap (λ b. if b then some blank else cell_at s r c)
          (row_span s.cols s.cursor_row lo hi r c q fits))
      (fill_lem (s.cursor_row * s.cols) n lo hi blank s.buffer (Holds-self s.buffer v.size) e
        (omega (arith, row_fits s.cursor_row s.rows s.cols v.row_inside)))

-- `eraseInLine` blanks its part of the cursor's row and leaves every other cell and field, in every
-- mode; for mode 1 the cursor must not stand past the last column.
pub erase_in_line-cells :
    (mode : ℤ) (s : Screen)
    → IsValid s
    → (mode ≡ pos 1 → s.cursor_col < s.cols)
    → Returns
        (erase_in_line mode s)
        (Shows (blanked (λ r c. r == s.cursor_row && in_line mode s c) s) s)
unfolding erase_in_line
erase_in_line-cells mode s v col = elim (Bool-cases (eqb_ℤ mode (pos 0))) [
  | inl e0 ↦ rw e0 (
      Shows-ext s _ (λ r c p q. ground arith)
        (line_span s s.cursor_col (s.cols - s.cursor_col) s.cols v (omega arith) (omega arith)))
  | inr n0 ↦ rw n0 (elim (Bool-cases (eqb_ℤ mode (pos 1))) [
    | inl e1 ↦ rw e1 (
        Shows-ext s _ (λ r c p q. ground arith)
          (line_span s 0 (s.cursor_col + 1) (s.cursor_col + 1) v (omega arith)
            (omega (arith, col (eqb_ℤ→eq mode (pos 1) e1)))))
    | inr n1 ↦ rw n1 (elim (Bool-cases (eqb_ℤ mode (pos 2))) [
      | inl e2 ↦ rw e2 (
          Shows-ext s _ (λ r c p q. ground arith)
            (line_span s 0 s.cols s.cols v (omega arith) (omega arith)))
      | inr n2 ↦ rw n2 (Shows-ext s (some s) (λ r c p q. ground arith) (Shows-self s v.grid))
    ])
  ])
]

-- Whole rows, blanked.
pub rows_blanked :
    (s : Screen) (from n to : ℕ)
    → IsGrid s
    → from + n ≡ to
    → to ≤ s.rows
    → Returns
        (with_buffer s (blank_rows s.cols n from s.buffer))
        (Shows (blanked (λ r c. in_span from to r) s) s)
rows_blanked s from n to v e fits =
    Shows-with_buffer _ (blanked (λ r c. in_span from to r) s) s _
      (λ r c p q.
        ap (λ b. if b then some blank else cell_at s r c) (rows_span s.cols from to r c q))
      (blank_rows_lem s.cols n from to s.buffer (Holds-self s.buffer v.size) e
        (mul_mono to s.rows s.cols fits))

-- Two parts blanked one after the other.
blanked_twice :
    (p q : ℕ → ℕ → Bool) (s : Screen) (m : Option Screen) (k : Screen → Option Screen)
    → IsValid s
    → Returns m (Shows (blanked p s) s)
    → ((b : List Cell)
        → let t = record s { buffer = b } in IsValid t → Returns (k t) (Shows (blanked q t) t))
    → Returns (m >>= k) (Shows (blanked (λ r c. q r c || p r c) s) s)
blanked_twice p q s none k v h l = absurd h
blanked_twice p q s (some t) k v h l =
    subst (λ (x : Screen). Returns (k x) (Shows (blanked (λ r c. q r c || p r c) s) s))
      (sym h.frame)
      (Returns-mono _ _ (k (record s { buffer = t.buffer }))
        (l t.buffer (subst IsValid h.frame (Shows-IsValid v h)))
        λ u w. record {
          frame = w.frame;
          size = w.size;
          cells = λ r c a b. w.cells r c a b ∙ ground (arith, h.cells r c a b);
        })

all_blanked :
    (s : Screen)
    → IsGrid s
    → Shows (λ r c. some blank) s (record s { buffer = map (λ _. blank) s.buffer })
all_blanked s v = record {
  frame = refl;
  size = length-map (λ _. blank) s.buffer ∙ v.size;
  cells = λ r c p q.
      let inside = index_fits r s.rows s.cols c p q in
      get_elem?-map (λ _. blank) s.buffer (r * s.cols + c)
        (get_elem?-total s.buffer (r * s.cols + c) (rw v.size inside)).1;
}

-- `eraseInDisplay` blanks the cells before or behind the cursor, or all, and leaves every other cell
-- and field, in every mode; for mode 1 the cursor must not stand past the last column.
pub erase_in_display-cells :
    (mode : ℤ) (s : Screen)
    → IsValid s
    → (mode ≡ pos 1 → s.cursor_col < s.cols)
    → Returns (erase_in_display mode s) (Shows (blanked (in_display mode s) s) s)
unfolding erase_in_display
erase_in_display-cells mode s v col = elim (Bool-cases (eqb_ℤ mode (pos 0))) [
  | inl e0 ↦ rw e0 (
      Shows-ext s _ (λ r c p q. ground arith)
        (blanked_twice (λ r c. r == s.cursor_row && in_line (pos 0) s c)
          (λ r c. in_span (s.cursor_row + 1) s.rows r) s _ _ v
          (erase_in_line-cells (pos 0) s v (λ e. cc))
          λ b w.
            rows_blanked (record s { buffer = b }) (s.cursor_row + 1) (s.rows - (s.cursor_row + 1))
              s.rows w.grid (omega arith) (omega arith)))
  | inr n0 ↦ rw n0 (elim (Bool-cases (eqb_ℤ mode (pos 1))) [
    | inl e1 ↦ rw e1 (
        Shows-ext s _ (λ r c p q. ground arith)
          (blanked_twice (λ r c. in_span 0 s.cursor_row r)
            (λ r c. r == s.cursor_row && in_line (pos 1) s c) s _ _ v
            (rows_blanked s 0 s.cursor_row s.cursor_row v.grid (omega arith) (omega arith))
            λ b w.
              erase_in_line-cells (pos 1) (record s { buffer = b }) w
                (λ _. col (eqb_ℤ→eq mode (pos 1) e1))))
    | inr n1 ↦ rw n1 (elim (Bool-cases (eqb_ℤ mode (pos 2) || eqb_ℤ mode (pos 3))) [
      | inl e2 ↦ rw e2 (Shows-ext s (some _) (λ r c p q. ground arith) (all_blanked s v.grid))
      | inr n2 ↦ rw n2 (Shows-ext s (some s) (λ r c p q. ground arith) (Shows-self s v.grid))
    ])
  ])
]
