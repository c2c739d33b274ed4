-- ===== src/Screen/Scroll/Cells.antt =====
-- Where `scrollUp` and `scrollDown` leave every cell, and what `scrollUp` saves.
use fish_term.Prelude.{
  ℕ, ◌+◌, ◌-◌, ◌*◌, ◌≤◌, ◌<◌, ◌≡◌, sym, ◌∙◌, ap, Bool, false, ◌&&◌, List, length, get_elem?, Option,
  some, pos, leb_ℤ, if◌then◌else◌, leb, ◌==◌, Bool-cases, inl, inr, Returns, Returns-mono,
  Returns-bind, Holds-self, in_span, rows_span, mul_mono, min, arith,
}
use fish_term.Screen.Cell.{Cell, blank}
use fish_term.Screen.State.{with_buffer, Screen, IsGrid, cell_at}
use fish_term.Screen.Rows.{rows_up, rows_down}
use fish_term.Screen.Rows.Blank.{blank_rows_lem}
use fish_term.Screen.Rows.Move.{rows_up_lem, rows_down_lem}
use fish_term.Screen.Erase.Cells.{rows_blanked}
use fish_term.Screen.Frame.{Shows, Shows-with_buffer, Shows-ext}
use fish_term.Screen.Scroll.{scroll_height, shift_up, shift_down, scroll_up, scroll_down}
use fish_term.Screen.Scroll.History.{history, save_lines-history}

-- Rows of the scroll region.
abbrev pub in_region : Screen → ℕ → Bool
in_region s r = leb s.scroll_top r && leb r s.scroll_bottom

-- The cell that stands at row `r` after the region moved up by `lines`.
abbrev pub moved_up : ℕ → Screen → ℕ → ℕ → Option Cell
moved_up lines s r c =
    if in_region s r
    then (if leb (r + lines) s.scroll_bottom then cell_at s (r + lines) c else some blank)
    else cell_at s r c

abbrev pub moved_down : ℕ → Screen → ℕ → ℕ → Option Cell
moved_down lines s r c =
    if in_region s r
    then (if leb (s.scroll_top + lines) r then cell_at s (r - lines) c else some blank)
    else cell_at s r c

module _ (s : Screen) (lines : ℕ) (v : IsGrid s) (some_lines : 0 < lines) where
  up_cell :
      (r c : ℕ)
      → c < s.cols
      → leb (scroll_height s) lines ≡ false
      → (if in_span
            ((s.scroll_bottom + 1 - lines) * s.cols)
            ((s.scroll_bottom + 1) * s.cols)
            (r * s.cols + c)
          then some blank
          else if in_span
              (s.scroll_top * s.cols)
              ((s.scroll_bottom + 1 - lines) * s.cols)
              (r * s.cols + c)
          then get_elem? s.buffer (r * s.cols + c + lines * s.cols)
          else get_elem? s.buffer (r * s.cols + c))
        ≡ moved_up lines s r c
  up_cell r c q part =
      let e : r * s.cols + c + lines * s.cols ≡ (r + lines) * s.cols + c = omega arith in
      rw
        (
          rows_span s.cols (s.scroll_bottom + 1 - lines) (s.scroll_bottom + 1) r c q,
          rows_span s.cols s.scroll_top (s.scroll_bottom + 1 - lines) r c q,
          e,
        )
        (ground arith)

  down_cell :
      (r c : ℕ)
      → c < s.cols
      → leb (scroll_height s) lines ≡ false
      → (if in_span (s.scroll_top * s.cols) ((s.scroll_top + lines) * s.cols) (r * s.cols + c)
          then some blank
          else if in_span
              ((s.scroll_top + lines) * s.cols)
              ((s.scroll_bottom + 1) * s.cols)
              (r * s.cols + c)
          then get_elem? s.buffer (r * s.cols + c - lines * s.cols)
          else get_elem? s.buffer (r * s.cols + c))
        ≡ moved_down lines s r c
  down_cell r c q part =
      rw
        (
          rows_span s.cols s.scroll_top (s.scroll_top + lines) r c q,
          rows_span s.cols (s.scroll_top + lines) (s.scroll_bottom + 1) r c q,
        )
        (ground (arith, λ (h : lines ≤ r). ap (get_elem? s.buffer) (index_eq h)))
    where
      index_eq : lines ≤ r → r * s.cols + c - lines * s.cols ≡ (r - lines) * s.cols + c
      index_eq h =
          let e : r - lines + lines ≡ r = omega arith in omega (arith, ap (λ (t : ℕ). t * s.cols) e)

  pub shift_up-cells : Returns (with_buffer s (shift_up lines s)) (Shows (moved_up lines s) s)
  unfolding shift_up
  shift_up-cells = elim (Bool-cases (leb (scroll_height s) lines)) [
    | inl all ↦ rw all (
        Shows-ext s _ (λ r c p q. ground arith)
          (rows_blanked s s.scroll_top (scroll_height s) (s.scroll_bottom + 1) v (omega arith)
            (omega arith)))
    | inr part ↦ rw part (
        Shows-with_buffer _ (moved_up lines s) s _ (λ r c p q. up_cell r c q part)
          (Returns-bind _ _
            (rows_up s.cols lines (s.scroll_bottom + 1 - lines - s.scroll_top) s.scroll_top
              s.buffer)
            _
            (rows_up_lem s.cols lines _ s.scroll_top (s.scroll_bottom + 1 - lines) s.buffer
              (Holds-self s.buffer v.size) some_lines (ground arith)
              (mul_mono _ s.rows s.cols (ground arith)))
            λ b h.
              blank_rows_lem s.cols lines (s.scroll_bottom + 1 - lines) (s.scroll_bottom + 1) b h
                (ground arith) (mul_mono _ s.rows s.cols (omega arith))))
  ]

  pub shift_down-cells : Returns (with_buffer s (shift_down lines s)) (Shows (moved_down lines s) s)
  unfolding shift_down
  shift_down-cells = elim (Bool-cases (leb (scroll_height s) lines)) [
    | inl all ↦ rw all (
        Shows-ext s _ (λ r c p q. ground arith)
          (rows_blanked s s.scroll_top (scroll_height s) (s.scroll_bottom + 1) v (omega arith)
            (omega arith)))
    | inr part ↦ rw part (
        Shows-with_buffer _ (moved_down lines s) s _ (λ r c p q. down_cell r c q part)
          (Returns-bind _ _
            (rows_down s.cols lines (s.scroll_bottom + 1 - (s.scroll_top + lines))
              (s.scroll_top + lines) s.buffer)
            _
            (rows_down_lem s.cols lines _ (s.scroll_top + lines) (s.scroll_bottom + 1) s.buffer
              (Holds-self s.buffer v.size) some_lines (omega arith) (ground arith)
              (mul_mono _ s.rows s.cols (omega arith)))
            λ b h.
              blank_rows_lem s.cols lines s.scroll_top (s.scroll_top + lines) b h (omega arith)
                (mul_mono _ s.rows s.cols (ground arith))))
  ]

-- What `scrollUp` leaves: the region moved up over blank rows, the rows that left it at the top of
-- the display behind the saved lines, and nothing else changed.
pub record ScrolledUp (lines : ℕ) (s t : Screen) : Type 0 where
  pub frame : t ≡ record s { buffer = t.buffer; scrollback = t.scrollback }
  pub size : length t.buffer ≡ s.rows * s.cols
  pub cells :
      (r c : ℕ)
      → r < s.rows
      → c < s.cols
      → get_elem? t.buffer (r * s.cols + c) ≡ moved_up lines s r c
  pub saved :
      t.scrollback
      ≡ (if s.scroll_top == 0 then history s (min lines (scroll_height s)) else s.scrollback)

scrollback-IsGrid :
    (s : Screen) (lines : List (List Cell)) → IsGrid s → IsGrid (record s { scrollback = lines })
scrollback-IsGrid s lines v = ground arith

-- The buffer moves after `x` was saved.
shifted :
    (s : Screen) (lines : ℕ) (x : List (List Cell))
    → IsGrid s
    → 0 < lines
    → x ≡ (if s.scroll_top == 0 then history s (min lines (scroll_height s)) else s.scrollback)
    → let t = record s { scrollback = x } in
      Returns (with_buffer t (shift_up lines t)) (ScrolledUp lines s)
shifted s lines x v h e =
    let t = record s { scrollback = x } in
    Returns-mono (Shows (moved_up lines t) t) _ _
      (shift_up-cells t lines (scrollback-IsGrid s x v) h)
      λ (u : Screen) w.
        let same : u.scrollback ≡ x = ap (λ (y : Screen). y.scrollback) w.frame in
        record {
          frame = w.frame ∙ ap (λ y. record s { buffer = u.buffer; scrollback = y }) (sym same);
          size = w.size;
          cells = w.cells;
          saved = same ∙ e;
        }

-- `scrollUp` moves the scroll region up by any positive number of lines, and saves the lines that
-- leave a region at the top of the display, trimmed to the newest `m_maxScrollback`.
pub scroll_up-ScrolledUp :
    (lines : ℕ) (s : Screen)
    → IsGrid s
    → 0 < lines
    → Returns (scroll_up (pos lines) s) (ScrolledUp lines s)
unfolding scroll_up
scroll_up-ScrolledUp lines s v h =
    let some_lines : leb_ℤ (pos lines) (pos 0) ≡ false = ground arith in
    rw some_lines (elim (Bool-cases (s.scroll_top == 0)) [
      | inl at_top ↦ rw at_top (
          rw (save_lines-history (min lines (scroll_height s)) s v (omega arith) (omega arith))
            (shifted s lines _ v h (rw at_top)))
      | inr below ↦ rw below (shifted s lines s.scrollback v h (rw below))
    ])

-- `scrollDown` moves the scroll region down by any positive number of lines, over blank rows, and
-- changes nothing else.
pub scroll_down-cells :
    (lines : ℕ) (s : Screen)
    → IsGrid s
    → 0 < lines
    → Returns (scroll_down (pos lines) s) (Shows (moved_down lines s) s)
unfolding scroll_down
scroll_down-cells lines s v h =
    let some_lines : leb_ℤ (pos lines) (pos 0) ≡ false = ground arith in
    rw some_lines (shift_down-cells s lines v h)
