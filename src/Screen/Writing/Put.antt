-- ===== src/Screen/Writing/Put.antt =====
-- `putChar` within a line and at its end, and that the writing methods keep the screen valid.
use fish_term.Prelude.{
  ℕ, ◌+◌, ◌*◌, ◌<◌, ◌≤◌, ◌≡◌, sym, ap, subst, true, false, length, get_elem?, some, ◌>>=◌, ℤ, pos,
  negsuc, ◌&&◌, ltb, leb, Bool-cases, inl, inr, Returns, Returns-mono, Returns-bind, Returns-some,
  arith,
}
use fish_term.Screen.Cell.{CellAttributes}
use fish_term.Screen.State.{Screen, IsGrid, IsValid, inside, set_cell}
use fish_term.Screen.Frame.{Shows, Shows-IsValid}
use fish_term.Screen.Scroll.{scroll_down}
use fish_term.Screen.Scroll.Cells.{scroll_down-cells}
use fish_term.Screen.Writing.{line_feed, new_line, put_char, reverse_index}
use fish_term.Screen.Writing.Cells.{written, set_cell-cells, LineFed, line_feed-LineFed}

-- The cell under the cursor is assigned, and the cursor moves one column on.
pub record Put (codepoint : ℕ) (s t : Screen) : Type 0 where
  pub frame : t ≡ record s { cursor_col = s.cursor_col + 1; buffer = t.buffer }
  pub size : length t.buffer ≡ s.rows * s.cols
  pub cells :
      (r c : ℕ)
      → r < s.rows
      → c < s.cols
      → get_elem? t.buffer (r * s.cols + c)
        ≡ written s.cursor_row s.cursor_col codepoint s.current_attrs s r c

-- `putChar` with the cursor on a column: the character goes there, and nothing else changes but the
-- cursor's column.
pub put_char-Put :
    (codepoint : ℕ) (s : Screen)
    → IsValid s
    → s.cursor_col < s.cols
    → Returns (put_char codepoint s) (Put codepoint s)
unfolding put_char
put_char-Put codepoint s v h =
    let e : leb s.cols s.cursor_col ≡ false = ground arith in
    rw e (
      Returns-bind (Shows (written s.cursor_row s.cursor_col codepoint s.current_attrs s) s)
        (Put codepoint s)
        (set_cell (pos s.cursor_row) (pos s.cursor_col) codepoint s.current_attrs s) _
        (set_cell-cells s.cursor_row s.cursor_col codepoint s.current_attrs s v.grid v.row_inside h)
        λ t w. record {
          frame = ap (λ (x : Screen). record x { cursor_col = x.cursor_col + 1 }) w.frame;
          size = w.size;
          cells = w.cells;
        })

-- `putChar` with the cursor past the last column: it is a `newLine` followed by the `putChar`.
pub put_char_wraps :
    (codepoint : ℕ) (s : Screen)
    → IsValid s
    → s.cursor_col ≡ s.cols
    → put_char codepoint s ≡ (new_line s >>= put_char codepoint)
unfolding put_char new_line
put_char_wraps codepoint s v h =
    let past : leb s.cols s.cursor_col ≡ true = ground arith in
    let (t, e, w) =
      Returns-some (LineFed (record s { cursor_col = 0 })) _
        (line_feed-LineFed (record s { cursor_col = 0 }) (ground arith)) in
    let cols : t.cols ≡ s.cols = ap (λ (x : Screen). x.cols) w.frame in
    let col : t.cursor_col ≡ 0 = ap (λ (x : Screen). x.cursor_col) w.frame in
    let fits : leb t.cols t.cursor_col ≡ false = ground arith in rw (past, e) (rw fits)

LineFed-IsValid : (s t : Screen) → IsGrid s → s.cursor_col ≤ s.cols → LineFed s t → IsValid t
LineFed-IsValid s t v h w = subst IsValid (sym w.frame) (record {
  grid = record {
    cols_pos = v.cols_pos;
    rows_pos = v.rows_pos;
    size = w.size;
    region = v.region;
    region_inside = v.region_inside;
    max_nonneg = v.max_nonneg;
  };
  row_inside = ground arith;
  col_inside = h;
})

pub line_feed-IsValid :
    (s : Screen) → IsGrid s → s.cursor_col ≤ s.cols → Returns (line_feed s) IsValid
line_feed-IsValid s v h =
    Returns-mono _ IsValid (line_feed s) (line_feed-LineFed s v) λ t. LineFed-IsValid s t v h

Put-IsValid :
    {codepoint : ℕ} (s t : Screen)
    → IsValid s
    → s.cursor_col < s.cols
    → Put codepoint s t
    → IsValid t
Put-IsValid s t v h w = subst IsValid (sym w.frame) (record {
  grid = record {
    cols_pos = v.cols_pos;
    rows_pos = v.rows_pos;
    size = w.size;
    region = v.region;
    region_inside = v.region_inside;
    max_nonneg = v.max_nonneg;
  };
  row_inside = v.row_inside;
  col_inside = omega arith;
})

put_in_line-IsValid :
    (codepoint : ℕ) (s : Screen)
    → IsValid s
    → s.cursor_col < s.cols
    → Returns (put_char codepoint s) IsValid
put_in_line-IsValid codepoint s v h =
    Returns-mono _ IsValid (put_char codepoint s) (put_char-Put codepoint s v h)
      λ t. Put-IsValid s t v h

pub put_char-IsValid :
    (codepoint : ℕ) (s : Screen) → IsValid s → Returns (put_char codepoint s) IsValid
unfolding new_line
put_char-IsValid codepoint s v = elim (Bool-cases (ltb s.cursor_col s.cols)) [
  | inl on ↦ put_in_line-IsValid codepoint s v (ground arith)
  | inr past ↦ rw (put_char_wraps codepoint s v (ground arith)) (
      Returns-bind (LineFed (record s { cursor_col = 0 })) IsValid
        (line_feed (record s { cursor_col = 0 })) _
        (line_feed-LineFed (record s { cursor_col = 0 }) (ground arith))
        λ t w.
          let cols : t.cols ≡ s.cols = ap (λ (x : Screen). x.cols) w.frame in
          let col : t.cursor_col ≡ 0 = ap (λ (x : Screen). x.cursor_col) w.frame in
          put_in_line-IsValid codepoint t
            (LineFed-IsValid (record s { cursor_col = 0 }) t (ground arith) (omega arith) w)
            (omega (arith, v.cols_pos)))
]

-- `setCell` outside the display changes nothing.
pub set_cell_outside :
    (row col : ℤ) (codepoint : ℕ) (attrs : CellAttributes) (s : Screen)
    → (inside row s.rows && inside col s.cols) ≡ false
    → set_cell row col codepoint attrs s ≡ some s
unfolding set_cell
set_cell_outside row col codepoint attrs s off = rw off

set_cell-inside-IsValid :
    (row col : ℤ) (codepoint : ℕ) (attrs : CellAttributes) (s : Screen)
    → IsValid s
    → (inside row s.rows && inside col s.cols) ≡ true
    → Returns (set_cell row col codepoint attrs s) IsValid
set_cell-inside-IsValid (pos r) (pos c) codepoint attrs s v on =
    Returns-mono _ IsValid (set_cell (pos r) (pos c) codepoint attrs s)
      (set_cell-cells r c codepoint attrs s v.grid (ground arith) (ground arith))
      λ t. Shows-IsValid v
set_cell-inside-IsValid (negsuc r) col codepoint attrs s v on = cc
set_cell-inside-IsValid (pos r) (negsuc c) codepoint attrs s v on = absurd (ground arith)

pub set_cell-IsValid :
    (row col : ℤ) (codepoint : ℕ) (attrs : CellAttributes) (s : Screen)
    → IsValid s
    → Returns (set_cell row col codepoint attrs s) IsValid
set_cell-IsValid row col codepoint attrs s v =
    elim (Bool-cases (inside row s.rows && inside col s.cols)) [
      | inl on ↦ set_cell-inside-IsValid row col codepoint attrs s v on
      | inr off ↦ rw (set_cell_outside row col codepoint attrs s off) v
    ]

pub reverse_index-IsValid : (s : Screen) → IsValid s → Returns (reverse_index s) IsValid
unfolding reverse_index
reverse_index-IsValid s v = elim (Bool-cases (ltb s.scroll_top s.cursor_row)) [
  | inl below ↦ rw below (ground arith)
  | inr top ↦ rw top (
      Returns-mono _ IsValid (scroll_down (pos 1) s) (scroll_down-cells 1 s v.grid (omega arith))
        λ t. Shows-IsValid v)
]
