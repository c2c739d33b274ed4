-- ===== src/Terminal/Cells.antt =====
-- The cells on display as libghostty-vt's render state gives them row by row, and what terminal.cpp
-- reads of them: `IsCellContent` and `ClassifySelectionCodepoint`.
use fish_term.Prelude.{
  is_white, ℕ, zero, suc, ◌+◌, Bool, true, false, ◌&&◌, ◌||◌, not, List, [], ◌∷◌, Option, none,
  some, ◌>>=◌, get_elem?, leb, ◌==◌, if◌then◌else◌,
}

-- `ghostty_cell_wide_t`
pub data Wide : Type 0 where
  narrow wide spacer_tail spacer_head : Wide

-- `GHOSTTY_CELL_DATA_CODEPOINT`, `_WIDE` and `_HAS_TEXT` of a cell.
pub record VtCell : Type 0 where
  pub codepoint : ℕ
  pub width : Wide
  pub has_text : Bool

-- The rows of the render state, and the cells that each row gives.
abbrev pub Grid : Type 0
Grid = List (List VtCell)

abbrev pub is_spacer : Wide → Bool
is_spacer spacer_tail = true
is_spacer spacer_head = true
is_spacer other = false

-- `IsCellContent`
unfoldable pub is_cell_content : VtCell → Bool
is_cell_content c = if is_spacer c.width then false else c.has_text && not (c.codepoint == b' ')

-- The loop that finds the last cell with a property: one more than its column, and 0 for -1. `last`
-- is what it has found before the cell of column `col`. The loop that finds the last row is alike.
unfoldable pub last_from {ℓ} : {A : Type ℓ} → (A → Bool) → ℕ → ℕ → List A → ℕ
last_from p col last [] = last
last_from p col last (c ∷ cs) = last_from p (col + 1) (if p c then col + 1 else last) cs

-- One more than `lastContentCol`.
unfoldable pub content_end : List VtCell → ℕ
unfolding last_from is_cell_content
content_end cells = last_from is_cell_content 0 0 cells

-- The cell that the loops over the rows and the columns stop at.
abbrev pub cell_at : Grid → ℕ → ℕ → Option VtCell
cell_at grid row col = get_elem? grid row >>= λ cells. get_elem? cells col

-- `SelectionTokenKind`
pub data TokenKind : Type 0 where
  whitespace word punctuation : TokenKind

abbrev pub eqb_kind : TokenKind → TokenKind → Bool
eqb_kind whitespace whitespace = true
eqb_kind word word = true
eqb_kind punctuation punctuation = true
eqb_kind k l = false

-- `std::isalnum` in the C locale.
abbrev pub is_alnum : ℕ → Bool
is_alnum b = leb b'0' b && leb b b'9' || leb b'A' b && leb b b'Z' || leb b'a' b && leb b b'z'

-- `ClassifySelectionCodepoint`
unfoldable pub classify : ℕ → Bool → TokenKind
classify codepoint has_text =
    if not has_text || codepoint == 0
    then whitespace
    else if leb codepoint 0x7F
    then (if is_white codepoint
        then whitespace
        else if is_alnum codepoint || codepoint == b'_'
        then word
        else punctuation)
    else word

-- The kind of the cell in a column: a spacer, or a column that the row does not give, has no text.
unfoldable pub kind_at : List VtCell → ℕ → TokenKind
unfolding classify
kind_at cells col = elim (get_elem? cells col) [
  | none ↦ classify 0 false
  | some c ↦ if is_spacer c.width then classify 0 false else classify c.codepoint c.has_text
]

-- `while (startCol > 0 && kind of startCol - 1 is the target) --startCol;`
unfoldable pub word_start : List VtCell → TokenKind → ℕ → ℕ
word_start cells kind zero = zero
word_start cells kind (suc col) = elim (eqb_kind (kind_at cells col) kind) [
  | true ↦ word_start cells kind col
  | false ↦ suc col
]

-- `while (endCol + 1 < m_cols && kind of endCol + 1 is the target) ++endCol;`, where `left` columns
-- follow `endCol`.
unfoldable pub word_end : List VtCell → TokenKind → ℕ → ℕ → ℕ
word_end cells kind zero col = col
word_end cells kind (suc left) col = elim (eqb_kind (kind_at cells (col + 1)) kind) [
  | true ↦ word_end cells kind left (col + 1)
  | false ↦ col
]
