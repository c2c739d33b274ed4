-- ===== src/Terminal/Links.antt =====
-- `getLinkAt` of terminal.cpp, with `IsUrlDelimiter`, `TrimUrlToken` and `HasSupportedLinkScheme`.
pub mod Found
use fish_term.Prelude.{
  ℕ, zero, suc, ◌+◌, ◌-◌, Bool, true, false, ◌&&◌, ◌||◌, not, List, [], ◌∷◌, ◌++◌, Option, none,
  some, get_elem?, length, take, drop, ltb, leb, ◌==◌, if◌then◌else◌, ℤ, pos, pos_part, ltb_ℤ,
  leb_ℤ, Bytes, codes,
}
use fish_term.Utf8.{utf8}
use fish_term.Terminal.Cells.{VtCell, is_spacer}
use fish_term.Terminal.Selection.{View}

abbrev pub is_one_of : ℕ → Bytes → Bool
is_one_of b [] = false
is_one_of b (c ∷ cs) = b == c || is_one_of b cs

-- `IsUrlDelimiter`
unfoldable pub is_url_delimiter : ℕ → Bool
is_url_delimiter b = is_one_of b (b' ' ∷ 9 ∷ 13 ∷ 10 ∷ b'"' ∷ b'\'' ∷ codes "<>()[]{}")

abbrev pub is_trailing : ℕ → Bool
is_trailing b = is_one_of b (codes ".,;:!?)]}")

-- `TrimUrlToken`: without the bytes at its end that its loop pops.
unfoldable pub trim_url_token : Bytes → Bytes
trim_url_token [] = []
trim_url_token (b ∷ bs) = elim (trim_url_token bs) [
  | [] ↦ if is_trailing b then [] else b ∷ []
  | c ∷ cs ↦ b ∷ c ∷ cs
]

-- `token.rfind(prefix, 0) == 0`
abbrev pub starts_with : Bytes → Bytes → Bool
starts_with [] token = true
starts_with (p ∷ ps) [] = false
starts_with (p ∷ ps) (b ∷ bs) = p == b && starts_with ps bs

-- `HasSupportedLinkScheme`
unfoldable pub has_supported_link_scheme : Bytes → Bool
has_supported_link_scheme token =
    starts_with (codes "http://") token
    || starts_with (codes "https://") token
    || starts_with (codes "mailto:") token
    || starts_with (codes "file://") token

-- What the loop over the columns appends for a cell.
abbrev pub link_cell_text : VtCell → Bytes
link_cell_text c =
    if not c.has_text || is_spacer c.width || c.codepoint == 0 then b' ' ∷ [] else utf8 c.codepoint

-- `rowText`
unfoldable pub line_text : List VtCell → Bytes
line_text [] = []
line_text (c ∷ cs) = link_cell_text c ++ line_text cs

-- `colOffsets[col]`: a column that the row does not give keeps its 0.
unfoldable pub col_offset : List VtCell → ℕ → ℕ
unfolding line_text
col_offset cells col = if ltb col (length cells) then length (line_text (take col cells)) else 0

-- Whether a loop over the row stops at a place, which it does at the end of the text.
unfoldable pub delimiter_at : Bytes → ℕ → Bool
unfolding is_url_delimiter
delimiter_at text i = elim (get_elem? text i) [ none ↦ true | some b ↦ is_url_delimiter b ]

-- `while (left > 0 && !IsUrlDelimiter(rowText[left - 1])) --left;`
unfoldable pub link_start : Bytes → ℕ → ℕ
link_start text zero = zero
link_start text (suc left) = elim (delimiter_at text left) [
  | true ↦ suc left
  | false ↦ link_start text left
]

-- `while (right < rowText.size() && !IsUrlDelimiter(rowText[right])) ++right;` from `right`, where
-- `left` bytes of the row are not passed.
unfoldable pub link_end : Bytes → ℕ → ℕ → ℕ
link_end text zero right = right
link_end text (suc left) right = elim (delimiter_at text right) [
  | true ↦ right
  | false ↦ link_end text left (right + 1)
]

-- The link around the byte `start` of a row.
unfoldable pub link_around : Bytes → ℕ → Bytes
unfolding has_supported_link_scheme
link_around text start =
    let left = link_start text start in
    let right = link_end text (length text - start) start in
    let token = trim_url_token (take (right - left) (drop left text)) in
    if leb (length text) start
    then []
    else if delimiter_at text start
    then []
    else if not (has_supported_link_scheme token)
    then []
    else token

-- `getLinkAt`
unfoldable pub get_link_at : View → ℤ → ℤ → Bytes
unfolding line_text col_offset link_around
get_link_at v row col =
    if ltb_ℤ row (pos 0) || ltb_ℤ col (pos 0) || leb_ℤ (pos v.rows) row || leb_ℤ (pos v.cols) col
    then []
    else elim (get_elem? v.grid (pos_part row)) [
      | none ↦ []
      | some cells ↦
          link_around (line_text (take v.cols cells))
            (col_offset (take v.cols cells) (pos_part col))
    ]
