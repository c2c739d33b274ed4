-- ===== src/Screen/Writing.antt =====
-- The methods that move the cursor and write text: `putChar` to `reverseIndex`.
pub mod Cells
pub mod Put
use fish_term.Prelude.{
  ℕ, ◌+◌, ◌-◌, ◌*◌, ◌/◌, Option, some, ◌>>=◌, pos, leb, ltb, if◌then◌else◌, min,
}
use fish_term.Screen.State.{Screen, set_cell}
use fish_term.Screen.Scroll.{scroll_up, scroll_down}

-- m_cursorRow++, scrolling the region when the cursor leaves its bottom.
unfoldable pub line_feed : Screen → Option Screen
line_feed s =
    if ltb s.scroll_bottom (s.cursor_row + 1)
    then (scroll_up (pos 1) (record s { cursor_row = s.cursor_row + 1 }) >>= λ t.
        some (record t { cursor_row = t.scroll_bottom }))
    else some (record s { cursor_row = s.cursor_row + 1 })

-- `newLine`
unfoldable pub new_line : Screen → Option Screen
new_line s = line_feed (record s { cursor_col = 0 })

-- `putChar`
unfoldable pub put_char : ℕ → Screen → Option Screen
put_char codepoint s =
    (if leb s.cols s.cursor_col then line_feed (record s { cursor_col = 0 }) else some s) >>= λ t.
    set_cell (pos t.cursor_row) (pos t.cursor_col) codepoint t.current_attrs t >>= λ u.
    some (record u { cursor_col = u.cursor_col + 1 })

-- `carriageReturn`
unfoldable pub carriage_return : Screen → Screen
carriage_return s = record s { cursor_col = 0 }

-- `backspace`
unfoldable pub backspace : Screen → Screen
backspace s = if ltb 0 s.cursor_col then record s { cursor_col = s.cursor_col - 1 } else s

-- `tab`
unfoldable pub tab : Screen → Screen
tab s = record s { cursor_col = min ((s.cursor_col / 8 + 1) * 8) (s.cols - 1) }

-- `reverseIndex`
unfoldable pub reverse_index : Screen → Option Screen
reverse_index s =
    if ltb s.scroll_top s.cursor_row
    then some (record s { cursor_row = s.cursor_row - 1 })
    else scroll_down (pos 1) s
