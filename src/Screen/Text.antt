-- ===== src/Screen/Text.antt =====
-- The text of `TerminalState` and its theme: `getContent`, `getSelectedText`, `getScrollbackLine`,
-- `setTheme`, `getPaletteColor`, the marks that `getVisibleBuffer` sets, and the setters that the
-- header defines.
use Prim.Native.Nat.{bit_or}
use fish_term.Prelude.{
  ℕ, zero, suc, ◌+◌, ◌-◌, ◌*◌, ◌/◌, ◌%◌, ◌≡◌, refl, Bool, ◌&&◌, not, List, [], ◌∷◌, ◌++◌, Option,
  none, some, ◌>>=◌, get_elem?, length, ltb, leb, if◌then◌else◌, ℤ, pos, negsuc, pos_part, ◌+ℤ◌,
  ◌-ℤ◌, ltb_ℤ, leb_ℤ, eqb_ℤ, Bytes, arith,
}
use fish_term.Utf8.{byte, continuation, utf8}
use fish_term.Theme.{Theme}
use fish_term.Screen.Cell.{Cell, CellAttributes}
use fish_term.Screen.State.{Screen, inside, cell_at, get_cell}
use fish_term.Screen.View.{element}
use fish_term.Screen.Selection.{Bounds, selection_bounds}

-- The bytes that both methods write for a code point.
unfoldable pub content_bytes : ℕ → Bytes
content_bytes codepoint =
    if ltb codepoint 128
    then byte codepoint ∷ []
    else if ltb codepoint 0x800
    then byte (bit_or 0xC0 (codepoint / 64)) ∷ continuation codepoint ∷ []
    else if ltb codepoint 0x10000
    then byte (bit_or 0xE0 (codepoint / 4096))
      ∷ continuation (codepoint / 64)
      ∷ continuation codepoint
      ∷ []
    else byte (bit_or 0xF0 (codepoint / 262144))
      ∷ continuation (codepoint / 4096)
      ∷ continuation (codepoint / 64)
      ∷ continuation codepoint
      ∷ []

-- They are those of `AppendUtf8`.
content_bytes-utf8 : (codepoint : ℕ) → content_bytes codepoint ≡ utf8 codepoint
unfolding content_bytes utf8
content_bytes-utf8 codepoint =
    let one : ltb codepoint 128 ≡ leb codepoint 0x7F = ground arith in
    let two : ltb codepoint 0x800 ≡ leb codepoint 0x7FF = ground arith in
    let three : ltb codepoint 0x10000 ≡ leb codepoint 0xFFFF = ground arith in
    rw (one, two, three) refl

-- `n` cells of a row of the buffer, from a column on.
unfoldable pub row_content : ℕ → ℕ → ℕ → Screen → Option Bytes
unfolding content_bytes
row_content zero row col s = some []
row_content (suc n) row col s = cell_at s row col >>= λ cell.
    row_content n row (col + 1) s >>= λ rest. some (content_bytes cell.codepoint ++ rest)

unfoldable pub rows_content : ℕ → ℕ → Screen → Option Bytes
unfolding row_content
rows_content zero row s = some []
rows_content (suc n) row s = row_content s.cols row 0 s >>= λ line.
    rows_content n (row + 1) s >>= λ rest. some (line ++ (10 ∷ rest))

-- `getContent`
unfoldable pub get_content : Screen → Option Bytes
unfolding rows_content
get_content s = rows_content s.rows 0 s

-- `getScrollbackLine`; the empty line where there is none.
unfoldable pub get_scrollback_line : ℤ → Screen → List Cell
get_scrollback_line index s =
    if inside index (length s.scrollback)
    then elim (element s.scrollback index) [ none ↦ [] | some line ↦ line ]
    else []

-- How many rounds a loop from `first` to `last` has.
abbrev pub rounds : ℤ → ℤ → ℕ
rounds first last = pos_part ((last -ℤ first) +ℤ pos 1)

-- `colEnd`
abbrev pub last_col : Bounds → ℤ → Screen → ℤ
last_col b row s = if eqb_ℤ row b.end_row then b.end_col else pos s.cols -ℤ pos 1

abbrev pub first_col : Bounds → ℤ → ℤ
first_col b row = if eqb_ℤ row b.start_row then b.start_col else pos 0

-- `n` cells of `getSelectedText`, from a column on; a cell outside the display is the empty one.
unfoldable pub selected_cells : ℕ → ℤ → ℤ → Screen → Option Bytes
unfolding content_bytes
selected_cells zero row col s = some []
selected_cells (suc n) row col s = get_cell s row col >>= λ cell.
    selected_cells n row (col +ℤ pos 1) s >>= λ rest. some (content_bytes cell.codepoint ++ rest)

unfoldable pub selected_rows : ℕ → Bounds → ℤ → Screen → Option Bytes
unfolding selected_cells
selected_rows zero b row s = some []
selected_rows (suc n) b row s =
    selected_cells (rounds (first_col b row) (last_col b row s)) row (first_col b row) s >>= λ line.
    selected_rows n b (row +ℤ pos 1) s >>= λ rest.
    some (line ++ ((if ltb_ℤ row b.end_row then 10 ∷ [] else []) ++ rest))

-- `getSelectedText`
unfoldable pub get_buffer_text : Screen → Option Bytes
unfolding selection_bounds selected_rows
get_buffer_text s =
    if not s.selection_active
    then some []
    else (let b = selection_bounds s in
        selected_rows (rounds b.start_row b.end_row) b b.start_row s)

-- Whether `getVisibleBuffer` marks a cell of the display as selected.
unfoldable pub is_marked : Screen → ℕ → ℕ → Bool
unfolding selection_bounds
is_marked s row col =
    let b = selection_bounds s in
    s.selection_active
    && (leb_ℤ b.start_row (pos row) && leb_ℤ (pos row) b.end_row && ltb row s.rows)
    && (leb_ℤ (first_col b (pos row)) (pos col)
        && leb_ℤ (pos col) (last_col b (pos row) s)
        && ltb col s.cols)

-- `setCursorVisible`, `setCurrentAttrs`, `setScrollbackSize` and `resetViewScroll`
unfoldable pub set_cursor_visible : Bool → Screen → Screen
set_cursor_visible visible s = record s { cursor_visible = visible }

unfoldable pub set_current_attrs : CellAttributes → Screen → Screen
set_current_attrs attrs s = record s { current_attrs = attrs }

unfoldable pub set_scrollback_size : ℤ → Screen → Screen
set_scrollback_size lines s = record s { max_scrollback = lines }

unfoldable pub reset_view_scroll : Screen → Screen
reset_view_scroll s = record s { view_offset = 0 }

-- `setTheme`: the theme, and the colours of the current attributes.
unfoldable pub set_theme : Theme → Screen → Theme × Screen
set_theme theme s = (
  theme,
  record s {
    current_attrs = record s.current_attrs { fg = theme.foreground; bg = theme.background };
  },
)

-- `getPaletteColor`; `none` is an index outside the palette's 16 colours.
unfoldable pub get_palette_color : Theme → ℤ → Option ℕ
get_palette_color theme (negsuc i) = some theme.foreground
get_palette_color theme (pos i) =
    if ltb i 16
    then get_elem? theme.palette i
    else if ltb i 232
    then some (
        bit_or
          (bit_or (bit_or 0xFF000000 ((i - 16) / 36 * 51 * 65536)) ((i - 16) / 6 % 6 * 51 * 256))
          ((i - 16) % 6 * 51))
    else if ltb i 256
    then some (
        bit_or
          (bit_or (bit_or 0xFF000000 (((i - 232) * 10 + 8) * 65536)) (((i - 232) * 10 + 8) * 256))
          ((i - 232) * 10 + 8))
    else some theme.foreground
