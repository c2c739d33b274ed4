-- ===== src/Terminal/Viewport.antt =====
-- The part of the scrollback on display, from the scrollbar that libghostty-vt reports.
use fish_term.Prelude.{ℕ, ◌-◌, ◌≤◌, ◌<◌, ◌+◌, ◌/◌, leb, ltb, if◌then◌else◌, min, max, ℤ, arith}

-- `ghostty_terminal_scrollbar_t`
pub record Scrollbar : Type 0 where
  pub total : ℕ
  pub len : ℕ
  pub offset : ℕ

-- `ghostty_terminal_scroll_viewport_t`
pub data Scroll : Type 0 where
  to_top to_bottom : Scroll
  by : ℤ → Scroll

-- `std::max<uint64_t>(1, scrollbar.len > 0 ? scrollbar.len : m_rows)`
unfoldable pub viewport_rows : ℕ → Scrollbar → ℕ
viewport_rows rows bar = max 1 (if ltb 0 bar.len then bar.len else rows)

-- `std::max<uint64_t>(viewportRows, scrollbar.total > 0 ? scrollbar.total : m_rows)`
unfoldable pub total_rows : ℕ → Scrollbar → ℕ
unfolding viewport_rows
total_rows rows bar = max (viewport_rows rows bar) (if ltb 0 bar.total then bar.total else rows)

-- `totalRows > viewportRows ? totalRows - viewportRows : 0`
unfoldable pub max_offset : ℕ → Scrollbar → ℕ
unfolding viewport_rows total_rows
max_offset rows bar =
    if ltb (viewport_rows rows bar) (total_rows rows bar)
    then total_rows rows bar - viewport_rows rows bar
    else 0

-- `getViewportTopRowLocked`
unfoldable pub viewport_top : ℕ → Scrollbar → ℕ
unfolding max_offset
viewport_top rows bar = min bar.offset (max_offset rows bar)

-- The rows in the viewport exist, whatever the scrollbar says.
pub viewport_fits :
    (rows : ℕ) (bar : Scrollbar)
    → (0 < viewport_rows rows bar)
      × (viewport_top rows bar + viewport_rows rows bar ≤ total_rows rows bar)
unfolding viewport_top
viewport_fits rows bar = ground arith

-- `getScrollbackSize`
unfoldable pub scrollback_size : Scrollbar → ℕ
scrollback_size bar = if leb bar.total bar.len then 0 else bar.total - bar.len

-- The first row on display after the search scrolls to a match: half a viewport above the match,
-- held inside the scrollback.
unfoldable pub target_top : ℕ → Scrollbar → ℕ → ℕ
unfolding max_offset
target_top rows bar row =
    min (if ltb (viewport_rows rows bar / 2) row then row - viewport_rows rows bar / 2 else 0)
      (max_offset rows bar)
