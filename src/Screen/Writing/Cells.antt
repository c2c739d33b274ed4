-- ===== src/Screen/Writing/Cells.antt =====
-- What `setCell`, the line feeds and `putChar` do to the cells, the cursor and the scrollback.
use mathlib.Core.Option
use fish_term.Prelude.{
  same_index, ℕ, ◌+◌, ◌*◌, ◌<◌, ◌≡◌, ◌∙◌, ap, true, false, ◌&&◌, length, get_elem?, get_elem?-total,
  Option, some, pos, if◌then◌else◌, ltb, ◌==◌, Bool-cases, inl, inr, Returns, Returns-bind,
  Holds-self, store_lem, index_fits, min, arith,
}
use fish_term.Screen.Cell.{Cell, CellAttributes}
use fish_term.Screen.State.{Screen, IsGrid, cell_at, set_cell, write_cell, inside}
use fish_term.Screen.Frame.{Shows, Shows-with_buffer}
use fish_term.Screen.Scroll.{scroll_up, scroll_height}
use fish_term.Screen.Scroll.History.{history}
use fish_term.Screen.Scroll.Cells.{ScrolledUp, scroll_up-ScrolledUp, moved_up}
use fish_term.Screen.Writing.{line_feed}

-- The cell with a code point and attributes assigned.
abbrev pub assigned : ℕ → CellAttributes → Cell → Cell
assigned codepoint attrs cell = record cell { codepoint = codepoint; attrs = attrs }

abbrev pub written : ℕ → ℕ → ℕ → CellAttributes → Screen → ℕ → ℕ → Option Cell
written row col codepoint attrs s r c =
    if r == row && c == col
    then Option.map (assigned codepoint attrs) (cell_at s r c)
    else cell_at s r c

assigned_cell :
    (s : Screen) (row col r c codepoint : ℕ) (attrs : CellAttributes) (cell : Cell)
    → cell_at s row col ≡ some cell
    → (if r == row && c == col then some (assigned codepoint attrs cell) else cell_at s r c)
      ≡ written row col codepoint attrs s r c
assigned_cell s row col r c codepoint attrs cell e = elim (Bool-cases (r == row && c == col)) [
  | inl here ↦
      let er : r ≡ row = ground arith in
      let ec : c ≡ col = ground arith in
      let found : cell_at s r c ≡ some cell = rw (er, ec) e in rw (here, found)
  | inr there ↦ rw there
]

-- `setCell` inside the display assigns to that cell, and to no other.
pub set_cell-cells :
    (row col codepoint : ℕ) (attrs : CellAttributes) (s : Screen)
    → IsGrid s
    → row < s.rows
    → col < s.cols
    → Returns
        (set_cell (pos row) (pos col) codepoint attrs s)
        (Shows (written row col codepoint attrs s) s)
unfolding set_cell write_cell
set_cell-cells row col codepoint attrs s v p q =
    let i = row * s.cols + col in
    let (cell, e) = get_elem?-total s.buffer i (rw v.size (index_fits row s.rows s.cols col p q)) in
    let range : (inside (pos row) s.rows && inside (pos col) s.cols) ≡ true = ground arith in
    rw (range, e)
      (Shows-with_buffer _ (written row col codepoint attrs s) s _
        (λ r c a b.
          rw (same_index s.cols row col r c q b)
            (assigned_cell s row col r c codepoint attrs cell e))
        (store_lem s.buffer i (assigned codepoint attrs cell) (Holds-self s.buffer v.size)
          (index_fits row s.rows s.cols col p q)))

-- What a line feed leaves: above the bottom of the region the cursor moves down; otherwise the
-- region scrolls up by one line and the cursor stands at its bottom.
pub record LineFed (s t : Screen) : Type 0 where
  pub frame : t ≡ record s {
    cursor_row = if ltb s.cursor_row s.scroll_bottom then s.cursor_row + 1 else s.scroll_bottom;
    buffer = t.buffer;
    scrollback = t.scrollback;
  }
  pub size : length t.buffer ≡ s.rows * s.cols
  pub cells :
      (r c : ℕ)
      → r < s.rows
      → c < s.cols
      → get_elem? t.buffer (r * s.cols + c)
        ≡ (if ltb s.cursor_row s.scroll_bottom then cell_at s r c else moved_up 1 s r c)
  pub saved : t.scrollback ≡ (
      if ltb s.cursor_row s.scroll_bottom
      then s.scrollback
      else if s.scroll_top == 0
      then history s (min 1 (scroll_height s))
      else s.scrollback)

-- `lineFeed` on every screen: the cursor moves down inside its region and scrolls it at the bottom.
pub line_feed-LineFed : (s : Screen) → IsGrid s → Returns (line_feed s) (LineFed s)
unfolding line_feed
line_feed-LineFed s v = elim (Bool-cases (ltb s.cursor_row s.scroll_bottom)) [
  | inl above ↦
      let e : ltb s.scroll_bottom (s.cursor_row + 1) ≡ false = ground arith in
      rw e
        (record { frame = rw above; size = v.size; cells = λ r c a b. rw above; saved = rw above })
  | inr below ↦
      let e : ltb s.scroll_bottom (s.cursor_row + 1) ≡ true = ground arith in
      rw e (
        Returns-bind (ScrolledUp 1 (record s { cursor_row = s.cursor_row + 1 })) (LineFed s)
          (scroll_up (pos 1) (record s { cursor_row = s.cursor_row + 1 })) _
          (scroll_up-ScrolledUp 1 (record s { cursor_row = s.cursor_row + 1 }) (ground arith)
            (omega arith))
          λ t w. record {
            frame =
                ap (λ (x : Screen). record x { cursor_row = x.scroll_bottom }) w.frame ∙ rw below;
            size = w.size;
            cells = λ r c a b. w.cells r c a b ∙ rw below;
            saved = w.saved ∙ rw below;
          })
]
