-- ===== src/Screen/Frame.antt =====
-- What an operation that only rewrites the buffer leaves: every other field, and the cells.
use fish_term.Prelude.{
  ℕ, ◌+◌, ◌*◌, ◌<◌, ◌≡◌, refl, ap, sym, subst, ◌∙◌, List, length, get_elem?, Option, none, some,
  Returns, Holds,
}
use fish_term.Screen.Cell.{Cell}
use fish_term.Screen.State.{with_buffer, Screen, IsGrid, IsValid, cell_at}

-- `t` is `s` with a buffer of the same size whose cell at row `r` and column `c` is `g r c`.
pub record Shows (g : ℕ → ℕ → Option Cell) (s t : Screen) : Type 0 where
  pub frame : t ≡ record s { buffer = t.buffer }
  pub size : length t.buffer ≡ s.rows * s.cols
  pub cells : (r c : ℕ) → r < s.rows → c < s.cols → get_elem? t.buffer (r * s.cols + c) ≡ g r c

-- A buffer computed for `s`, read by rows and columns.
pub Shows-with_buffer :
    (f : ℕ → Option Cell) (g : ℕ → ℕ → Option Cell) (s : Screen) (m : Option (List Cell))
    → ((r c : ℕ) → r < s.rows → c < s.cols → f (r * s.cols + c) ≡ g r c)
    → Returns m (Holds (s.rows * s.cols) f)
    → Returns (with_buffer s m) (Shows g s)
Shows-with_buffer f g s none e h = absurd h
Shows-with_buffer f g s (some b) e h = record {
  frame = refl;
  size = h.size;
  cells = λ r c p q. h.at (r * s.cols + c) ∙ e r c p q;
}

-- Such an operation keeps the screen valid.
pub Shows-IsGrid : {g : ℕ → ℕ → Option Cell} {s t : Screen} → IsGrid s → Shows g s t → IsGrid t
Shows-IsGrid {s = s} {t = t} v h = subst IsGrid (sym h.frame) (record {
  cols_pos = v.cols_pos;
  rows_pos = v.rows_pos;
  size = h.size;
  region = v.region;
  region_inside = v.region_inside;
  max_nonneg = v.max_nonneg;
})

pub Shows-IsValid : {g : ℕ → ℕ → Option Cell} {s t : Screen} → IsValid s → Shows g s t → IsValid t
Shows-IsValid {s = s} {t = t} v h = subst IsValid (sym h.frame) (record {
  grid = subst IsGrid h.frame (Shows-IsGrid v.grid h);
  row_inside = v.row_inside;
  col_inside = v.col_inside;
})

pub Shows-ext :
    {g h : ℕ → ℕ → Option Cell} (s : Screen) (m : Option Screen)
    → ((r c : ℕ) → r < s.rows → c < s.cols → g r c ≡ h r c)
    → Returns m (Shows g s)
    → Returns m (Shows h s)
Shows-ext s none e w = absurd w
Shows-ext s (some t) e w = record {
  frame = w.frame;
  size = w.size;
  cells = λ r c p q. w.cells r c p q ∙ e r c p q;
}

pub Shows-self : (s : Screen) → IsGrid s → Shows (cell_at s) s s
Shows-self s v = record { frame = refl; size = v.size; cells = λ r c p q. refl }

-- One rewriting of the buffer after another.
pub Shows-trans :
    {g h : ℕ → ℕ → Option Cell} (s t u : Screen) → Shows g s t → Shows h t u → Shows h s u
Shows-trans s t u a b = record {
  frame = b.frame ∙ ap (λ (x : Screen). record x { buffer = u.buffer }) a.frame;
  size = rw a.frame at b.size;
  cells = rw a.frame at b.cells;
}
