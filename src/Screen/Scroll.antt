-- ===== src/Screen/Scroll.antt =====
-- `scrollUp`, `scrollDown`, `addLineToScrollback` and `setScrollRegion`.
pub mod History
pub mod Cells
use fish_term.Prelude.{
  ℕ, ◌+◌, ◌-◌, ◌*◌, ◌&&◌, List, [], ◌∷◌, ◌++◌, length, get_elem?, replicate, Option, none, some,
  ◌>>=◌, ℤ, pos, pos_part, ltb_ℤ, leb_ℤ, leb, ◌==◌, if◌then◌else◌, for_range, store, min,
}
use fish_term.Screen.Cell.{Cell, blank}
use fish_term.Screen.State.{with_buffer, Screen}
use fish_term.Screen.Rows.{blank_rows, rows_up, rows_down}

-- while (size > max) erase(begin); an erase on the empty vector is undefined.
unfoldable pub trim {ℓ} : {A : Type ℓ} → ℤ → List A → Option (List A)
trim max [] = if ltb_ℤ max (pos 0) then none else some []
trim max (line ∷ rest) =
    let trimmed = trim max rest in
    if ltb_ℤ max (pos (length (line ∷ rest))) then trimmed else some (line ∷ rest)

-- `addLineToScrollback`
unfoldable pub add_line_to_scrollback : List Cell → Screen → Option Screen
add_line_to_scrollback line s = trim s.max_scrollback (s.scrollback ++ line ∷ []) >>= λ lines.
    some (record s { scrollback = lines })

-- std::vector<Cell> line(m_cols), filled from row `i` of the buffer.
unfoldable pub read_row : ℕ → ℕ → List Cell → Option (List Cell)
read_row cols i b =
    for_range cols 0 (λ c line. get_elem? b (i * cols + c) >>= λ x. store line c x)
      (replicate cols blank)

-- The loop that saves the first `n` rows.
unfoldable pub save_lines : ℕ → Screen → Option Screen
save_lines n =
    for_range n 0 (λ i s. read_row s.cols i s.buffer >>= λ line. add_line_to_scrollback line s)

-- `m_scrollBottom - m_scrollTop + 1`
abbrev pub scroll_height : Screen → ℕ
scroll_height s = s.scroll_bottom + 1 - s.scroll_top

-- The buffer of `scrollUp` once the lines are saved.
unfoldable pub shift_up : ℕ → Screen → Option (List Cell)
shift_up lines s =
    if leb (scroll_height s) lines
    then blank_rows s.cols (scroll_height s) s.scroll_top s.buffer
    else (rows_up s.cols lines (s.scroll_bottom + 1 - lines - s.scroll_top) s.scroll_top s.buffer
        >>= λ b. blank_rows s.cols lines (s.scroll_bottom + 1 - lines) b)

-- `scrollUp`
unfoldable pub scroll_up : ℤ → Screen → Option Screen
scroll_up lines s =
    if leb_ℤ lines (pos 0)
    then some s
    else ((if s.scroll_top == 0
          then save_lines (min (pos_part lines) (scroll_height s)) s
          else some s)
        >>= λ t. with_buffer t (shift_up (pos_part lines) t))

unfoldable pub shift_down : ℕ → Screen → Option (List Cell)
shift_down lines s =
    if leb (scroll_height s) lines
    then blank_rows s.cols (scroll_height s) s.scroll_top s.buffer
    else (rows_down s.cols lines (s.scroll_bottom + 1 - (s.scroll_top + lines))
          (s.scroll_top + lines) s.buffer
        >>= λ b. blank_rows s.cols lines s.scroll_top b)

-- `scrollDown`
unfoldable pub scroll_down : ℤ → Screen → Option Screen
scroll_down lines s =
    if leb_ℤ lines (pos 0) then some s else with_buffer s (shift_down (pos_part lines) s)

-- `setScrollRegion`
unfoldable pub set_scroll_region : ℤ → ℤ → Screen → Screen
set_scroll_region top bottom s =
    if leb_ℤ (pos 0) top && ltb_ℤ bottom (pos s.rows) && ltb_ℤ top bottom
    then record s { scroll_top = pos_part top; scroll_bottom = pos_part bottom }
    else s
