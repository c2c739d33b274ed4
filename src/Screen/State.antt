-- ===== src/Screen/State.antt =====
-- The state of `TerminalState`, its constructor, and the accessors of one cell and of the cursor.
-- The sizes `m_cols` and `m_rows` are taken positive, as the callers pass them; then every row,
-- column and region bound that the methods keep is a natural number. What a caller passes and
-- the code checks is an integer.
use fish_term.Prelude.{
  ℕ, ◌+◌, ◌-◌, ◌*◌, ◌≤◌, ◌<◌, ◌≡◌, Bool, true, false, ◌&&◌, List, [], length, get_elem?, replicate,
  Option, none, some, ◌>>=◌, ℤ, pos, negsuc, pos_part, ◌≤ℤ◌, min_ℤ, max_ℤ, ltb, if◌then◌else◌,
  store,
}
use fish_term.Screen.Cell.{Cell, CellAttributes, blank, default_attributes}

pub record Screen : Type 0 where
  pub cols : ℕ
  pub rows : ℕ
  pub cursor_row : ℕ
  pub cursor_col : ℕ
  pub cursor_visible : Bool
  pub scroll_top : ℕ
  pub scroll_bottom : ℕ
  pub current_attrs : CellAttributes
  pub buffer : List Cell
  pub scrollback : List (List Cell)
  pub max_scrollback : ℤ
  pub view_offset : ℕ
  pub selection_active : Bool
  pub sel_start_row : ℤ
  pub sel_start_col : ℤ
  pub sel_end_row : ℤ
  pub sel_end_col : ℤ

-- `TerminalState(int cols, int rows)`
unfoldable pub create : ℕ → ℕ → Screen
create cols rows = record {
  cols = cols;
  rows = rows;
  cursor_row = 0;
  cursor_col = 0;
  cursor_visible = true;
  scroll_top = 0;
  scroll_bottom = rows - 1;
  current_attrs = default_attributes;
  buffer = replicate (cols * rows) blank;
  scrollback = [];
  max_scrollback = pos 10000;
  view_offset = 0;
  selection_active = false;
  sel_start_row = pos 0;
  sel_start_col = pos 0;
  sel_end_row = pos 0;
  sel_end_col = pos 0;
}

-- `index`
abbrev pub index : Screen → ℕ → ℕ → ℕ
index s row col = row * s.cols + col

-- The sizes, the buffer and the scroll region fit together.
pub record IsGrid (s : Screen) : Type 0 where
  pub cols_pos : 0 < s.cols
  pub rows_pos : 0 < s.rows
  pub size : length s.buffer ≡ s.rows * s.cols
  pub region : s.scroll_top ≤ s.scroll_bottom
  pub region_inside : s.scroll_bottom < s.rows
  pub max_nonneg : pos 0 ≤ℤ s.max_scrollback

-- What the class keeps true between calls. The cursor may stand one past the last column, where
-- `putChar` leaves it until the next character wraps.
pub record IsValid (s : Screen) : Type 0 where
  pub grid : IsGrid s
  pub open grid use *
  pub row_inside : s.cursor_row < s.rows
  pub col_inside : s.cursor_col ≤ s.cols

-- The guard `row >= 0 && row < m_rows` of an integer against a size.
abbrev pub inside : ℤ → ℕ → Bool
inside (pos n) size = ltb n size
inside (negsuc n) size = false

-- The screen with the buffer that a loop leaves.
abbrev pub with_buffer : Screen → Option (List Cell) → Option Screen
with_buffer s none = none
with_buffer s (some b) = some (record s { buffer = b })

-- The assignment of `codepoint` and `attrs` to the cell at `i`.
unfoldable pub write_cell : List Cell → ℕ → ℕ → CellAttributes → Option (List Cell)
write_cell b i codepoint attrs =
    get_elem? b i >>= λ cell. store b i (record cell { codepoint = codepoint; attrs = attrs })

-- `setCell`
unfoldable pub set_cell : ℤ → ℤ → ℕ → CellAttributes → Screen → Option Screen
unfolding write_cell
set_cell row col codepoint attrs s =
    if inside row s.rows && inside col s.cols
    then with_buffer s (write_cell s.buffer (index s (pos_part row) (pos_part col)) codepoint attrs)
    else some s

-- `getCell`
unfoldable pub get_cell : Screen → ℤ → ℤ → Option Cell
get_cell s row col =
    if inside row s.rows && inside col s.cols
    then get_elem? s.buffer (index s (pos_part row) (pos_part col))
    else some blank

-- `std::max(0, std::min(value, size - 1))`, for a positive size.
abbrev pub clamp : ℤ → ℕ → ℕ
clamp value size = pos_part (max_ℤ (pos 0) (min_ℤ value (pos (size - 1))))

-- `setCursor`, with `ensureCursorInBounds`
unfoldable pub set_cursor : ℤ → ℤ → Screen → Screen
set_cursor row col s = record s { cursor_row = clamp row s.rows; cursor_col = clamp col s.cols }

-- The cell that the buffer holds at a row and a column, if any.
abbrev pub cell_at : Screen → ℕ → ℕ → Option Cell
cell_at s r c = get_elem? s.buffer (index s r c)
