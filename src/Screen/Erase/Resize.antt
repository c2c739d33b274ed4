-- ===== src/Screen/Erase/Resize.antt =====
-- `resize` keeps the part of the display that both sizes have, and blanks the rest.
use fish_term.Prelude.{
  ℕ, ◌+◌, ◌-◌, ◌*◌, ◌<◌, ◌≤◌, ◌≡◌, sym, ◌∙◌, subst, length, get_elem?, get_elem?-total, replicate,
  length-replicate, get_elem?-replicate, Option, some, ◌>>=◌, pos, ◌&&◌, ◌||◌, same_index, List,
  if◌then◌else◌, ltb, ◌==◌, Bool-cases, inl, inr, Returns, Returns-mono, Returns-bind, for_range,
  for_range_inv, store, store_lem, Holds-self, index_fits, mul_mono, min, arith,
}
use fish_term.Screen.Cell.{Cell, blank}
use fish_term.Screen.State.{Screen, IsGrid, IsValid, cell_at, clamp}
use fish_term.Screen.Erase.{copy_overlap, resize}

-- Rows below `n` hold the old cells of the columns below `k`; the rest is blank.
abbrev overlap : ℕ → List Cell → ℕ → ℕ → ℕ → ℕ → Option Cell
overlap old_cols old n k r c =
    if ltb r n && ltb c k then get_elem? old (r * old_cols + c) else some blank

-- The buffer of a grid, by rows and columns.
record Grid (cols rows : ℕ) (g : ℕ → ℕ → Option Cell) (b : List Cell) : Type 0 where
  size : length b ≡ rows * cols
  at : (r c : ℕ) → r < rows → c < cols → get_elem? b (r * cols + c) ≡ g r c

-- The part copied before column `k` of row `n`.
abbrev copied : ℕ → List Cell → ℕ → ℕ → ℕ → ℕ → ℕ → Option Cell
copied old_cols old width n k r c =
    if (ltb r n && ltb c width) || (r == n && ltb c k)
    then get_elem? old (r * old_cols + c)
    else some blank

copied_step :
    (old : List Cell) (old_cols width n k r c : ℕ) (x : Cell)
    → get_elem? old (n * old_cols + k) ≡ some x
    → (if r == n && c == k then some x else copied old_cols old width n k r c)
      ≡ copied old_cols old width n (k + 1) r c
copied_step old old_cols width n k r c x e = elim (Bool-cases (r == n && c == k)) [
  | inl here ↦
      let er : r ≡ n = ground arith in
      let ec : c ≡ k = ground arith in
      let found : get_elem? old (r * old_cols + c) ≡ some x = rw (er, ec) e in
      rw here (ground (arith, found))
  | inr there ↦ rw there (ground arith)
]

module _ (cols rows old_cols copy_rows width : ℕ) (old : List Cell) (width_fits : width ≤ cols)
    (width_old : width ≤ old_cols) (rows_fit : copy_rows ≤ rows)
    (old_fits : copy_rows * old_cols ≤ length old) where
  cell_round :
      (r c : ℕ) (b : List Cell)
      → r < copy_rows
      → c < width
      → Grid cols rows (copied old_cols old width r c) b
      → Returns
          (get_elem? old (r * old_cols + c) >>= λ x. store b (r * cols + c) x)
          (Grid cols rows (copied old_cols old width r (c + 1)))
  cell_round r c b hr hc w =
      let (x, e) =
        get_elem?-total old (r * old_cols + c)
          (omega (arith, index_fits r copy_rows old_cols c hr (omega arith))) in
      rw e (
        Returns-mono _ (Grid cols rows (copied old_cols old width r (c + 1)))
          (store b (r * cols + c) x)
          (store_lem b (r * cols + c) x (Holds-self b w.size)
            (index_fits r rows cols c (omega arith) (omega arith)))
          λ u h. record {
            size = h.size;
            at = λ r' c' p q.
                h.at (r' * cols + c')
                ∙ rw (same_index cols r c r' c' (omega arith) q, w.at r' c' p q)
                    (copied_step old old_cols width r c r' c' x e);
          })

  row_round :
      (r : ℕ) (b : List Cell)
      → r < copy_rows
      → Grid cols rows (overlap old_cols old r width) b
      → Returns
          (for_range width 0
            (λ c b. get_elem? old (r * old_cols + c) >>= λ x. store b (r * cols + c) x)
            b)
          (Grid cols rows (overlap old_cols old (r + 1) width))
  row_round r b hr w =
      Returns-mono (Grid cols rows (copied old_cols old width r width))
        (Grid cols rows (overlap old_cols old (r + 1) width)) _
        (for_range_inv (λ c. Grid cols rows (copied old_cols old width r c)) _ width 0 width b
          (omega arith) (λ c t lo hi h. cell_round r c t hr hi h)
          (record { size = w.size; at = λ r' c' p q. w.at r' c' p q ∙ ground arith }))
        λ u h. record { size = h.size; at = λ r' c' p q. h.at r' c' p q ∙ ground arith }

  copy_overlap_lem :
      Returns
        (copy_overlap cols old_cols copy_rows width old (replicate (cols * rows) blank))
        (Grid cols rows (overlap old_cols old copy_rows width))
  unfolding copy_overlap
  copy_overlap_lem =
      for_range_inv (λ r. Grid cols rows (overlap old_cols old r width)) _ copy_rows 0 copy_rows _
        (omega arith) (λ r t lo hi h. row_round r t hi h)
        (record {
          size = length-replicate (cols * rows) blank ∙ omega arith;
          at = λ r c p q.
              get_elem?-replicate (cols * rows) (r * cols + c) blank
                (omega (arith, index_fits r rows cols c p q))
              ∙ ground arith;
        })

clamp_pos : (n size : ℕ) → clamp (pos n) size ≡ min n (size - 1)
clamp_pos n size = elim (Bool-cases (ltb (size - 1) n)) [
  | inl over ↦ ground arith
  | inr under ↦ ground arith
]

-- A resized screen: the new sizes, the whole display as its scroll region, the cursor held inside,
-- the old cells where both sizes have them, blank cells elsewhere, and nothing else changed.
pub record Resized (cols rows : ℕ) (s t : Screen) : Type 0 where
  pub frame : t ≡ record s {
    cols = cols;
    rows = rows;
    scroll_top = 0;
    scroll_bottom = rows - 1;
    cursor_row = min s.cursor_row (rows - 1);
    cursor_col = min s.cursor_col (cols - 1);
    buffer = t.buffer;
  }
  pub size : length t.buffer ≡ rows * cols
  pub cells :
      (r c : ℕ)
      → r < rows
      → c < cols
      → get_elem? t.buffer (r * cols + c)
        ≡ (if ltb r s.rows && ltb c s.cols then cell_at s r c else some blank)

-- `resize` to any positive size.
pub resize-Resized :
    (cols rows : ℕ) (s : Screen)
    → IsGrid s
    → 0 < cols
    → 0 < rows
    → Returns (resize cols rows s) (Resized cols rows s)
unfolding resize
resize-Resized cols rows s v p q =
    Returns-bind (Grid cols rows (overlap s.cols s.buffer (min rows s.rows) (min cols s.cols)))
      (Resized cols rows s)
      (copy_overlap cols s.cols (min rows s.rows) (min cols s.cols) s.buffer
        (replicate (cols * rows) blank))
      _
      (copy_overlap_lem cols rows s.cols (min rows s.rows) (min cols s.cols) s.buffer (omega arith)
        (omega arith) (omega arith)
        (omega (arith, v.size, mul_mono (min rows s.rows) s.rows s.cols (omega arith))))
      λ b w. record {
        frame = rw (clamp_pos s.cursor_row rows, clamp_pos s.cursor_col cols);
        size = w.size;
        cells = λ r c a b. w.at r c a b ∙ ground arith;
      }

-- `resize` keeps the screen valid.
pub resize-IsValid :
    (cols rows : ℕ) (s : Screen)
    → IsValid s
    → 0 < cols
    → 0 < rows
    → Returns (resize cols rows s) IsValid
resize-IsValid cols rows s v p q =
    Returns-mono _ IsValid (resize cols rows s) (resize-Resized cols rows s v.grid p q) λ t w.
      subst IsValid (sym w.frame) (record {
        grid = record {
          cols_pos = p;
          rows_pos = q;
          size = w.size;
          region = omega arith;
          region_inside = omega arith;
          max_nonneg = v.max_nonneg;
        };
        row_inside = omega arith;
        col_inside = omega arith;
      })
