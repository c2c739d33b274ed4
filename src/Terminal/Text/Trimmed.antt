-- ===== src/Terminal/Text/Trimmed.antt =====
-- The text of the display has no spaces at the end of a line and no empty lines at its end.
use mathlib.Core.List.{append_assoc, append-nil}
use fish_term.Prelude.{
  ℕ, zero, suc, ◌≡◌, refl, sym, ap, subst, ◌∙◌, Bool, true, false, ◌&&◌, ◌||◌, not, inl, inr, List,
  [], ◌∷◌, ◌++◌, length, take, map, ltb, ◌==◌, Bool-cases, Bytes, arith,
}
use fish_term.Utf8.{utf8}
use fish_term.Terminal.Cells.{VtCell, Grid, is_spacer, is_cell_content, last_from, content_end}
use fish_term.Terminal.Selection.{View, cell_text, cells_text}
use fish_term.Terminal.Text.{screen_line, join_lines, has_content, rows_read, get_screen_content}
use fish_term.Terminal.Text.Ends.{
  keep, trim_end, last_from-length, take-last_from, is_not_space, AreSpaces, append-AreSpaces,
  trim-append_spaces, IsFull, append-IsFull, utf8-IsFull,
}

-- A cell with text has a code point.
abbrev pub IsCharacter : VtCell → Type 0
IsCharacter c = c.has_text && c.codepoint == 0 ≡ false

abbrev pub AreCharacters : List VtCell → Type 0
AreCharacters [] = Unit
AreCharacters (c ∷ cs) = IsCharacter c × AreCharacters cs

cell_text-IsFull : (c : VtCell) → IsCharacter c → is_cell_content c ≡ true → IsFull (cell_text c)
unfolding cell_text is_cell_content
cell_text-IsFull c character content = elim (Bool-cases (is_spacer c.width)) [
  | inl spacer ↦ absurd (ground arith)
  | inr main ↦ rw main (
      let shown : not c.has_text || c.codepoint == 0 ≡ false = ground arith in
      rw shown (utf8-IsFull c.codepoint (ground arith)))
]

cell_text-AreSpaces : (c : VtCell) → is_cell_content c ≡ false → AreSpaces (cell_text c)
unfolding cell_text is_cell_content utf8
cell_text-AreSpaces c blank = elim (Bool-cases (is_spacer c.width)) [
  | inl spacer ↦ rw spacer tt
  | inr main ↦ rw main (elim (Bool-cases (not c.has_text || c.codepoint == 0)) [
    | inl empty ↦ rw empty (refl, tt)
    | inr shown ↦ rw shown (let space : c.codepoint ≡ b' ' = ground arith in rw space (refl, tt))
  ])
]

-- The text of a row is that of the row up to its last content, and spaces.
cells_text-trim_end :
    (cs : List VtCell)
    → (tail : Bytes) × (cells_text cs ≡ cells_text (trim_end is_cell_content cs) ++ tail)
      × AreSpaces tail
unfolding cells_text
cells_text-trim_end [] = ([], refl, tt)
cells_text-trim_end (c ∷ cs) =
    let (tail, e, spaces) = cells_text-trim_end cs in
    go (is_cell_content c) refl (trim_end is_cell_content cs) tail e spaces
  where
    go :
        (b : Bool)
        → is_cell_content c ≡ b
        → (t : List VtCell) (tail : Bytes) → cells_text cs ≡ cells_text t ++ tail
        → AreSpaces tail
        → (tail : Bytes) × (cells_text (c ∷ cs) ≡ cells_text (keep b c t) ++ tail) × AreSpaces tail
    go true h [] tail e spaces = (
      tail,
      ap (λ s. cell_text c ++ s) e ∙ ap (λ s. s ++ tail) (sym (append-nil (cell_text c))),
      spaces,
    )
    go false h [] tail e spaces = (
      cell_text c ++ tail,
      ap (λ s. cell_text c ++ s) e,
      append-AreSpaces (cell_text c) tail (cell_text-AreSpaces c h) spaces,
    )
    go true h (d ∷ ds) tail e spaces = (
      tail,
      ap (λ s. cell_text c ++ s) e ∙ sym (append_assoc (cell_text c) (cells_text (d ∷ ds)) tail),
      spaces,
    )
    go false h (d ∷ ds) tail e spaces = (
      tail,
      ap (λ s. cell_text c ++ s) e ∙ sym (append_assoc (cell_text c) (cells_text (d ∷ ds)) tail),
      spaces,
    )

-- A row up to its last content is empty or ends in text.
abbrev EndsFull : List VtCell → Type 0
EndsFull [] = Unit
EndsFull (c ∷ cs) = IsFull (cells_text (c ∷ cs))

trim_end-EndsFull : (cs : List VtCell) → AreCharacters cs → EndsFull (trim_end is_cell_content cs)
unfolding cells_text
trim_end-EndsFull [] a = tt
trim_end-EndsFull (c ∷ cs) a =
    go (is_cell_content c) refl (trim_end is_cell_content cs) (trim_end-EndsFull cs a.1)
  where
    go : (b : Bool) → is_cell_content c ≡ b → (t : List VtCell) → EndsFull t → EndsFull (keep b c t)
    go true h [] full = subst IsFull (sym (append-nil (cell_text c))) (cell_text-IsFull c a.0 h)
    go false h [] full = tt
    go true h (d ∷ ds) full = append-IsFull (cell_text c) (cells_text (d ∷ ds)) full
    go false h (d ∷ ds) full = append-IsFull (cell_text c) (cells_text (d ∷ ds)) full

take-length_append {ℓ} : {A : Type ℓ} (s t : List A) → take (length s) (s ++ t) ≡ s
take-length_append [] [] = refl
take-length_append [] (b ∷ t) = refl
take-length_append (a ∷ s) t = ap (λ u. a ∷ u) (take-length_append s t)

-- The line of a row is the text of the row up to its last content.
screen_line-cells : (cs : List VtCell) → screen_line cs ≡ cells_text (trim_end is_cell_content cs)
unfolding screen_line content_end
screen_line-cells cs =
    let (tail, e, spaces) = cells_text-trim_end cs in
    let kept = cells_text (trim_end is_cell_content cs) in
    ap (λ t. take (length (cells_text t)) (cells_text cs)) (take-last_from is_cell_content cs)
    ∙ ap (take (length kept)) e
    ∙ take-length_append kept tail

trimmed_text : (t : List VtCell) → EndsFull t → trim_end is_not_space (cells_text t) ≡ cells_text t
unfolding cells_text
trimmed_text [] full = refl
trimmed_text (c ∷ cs) (b, bs, e, same) = same

-- A line is the text of its row without the spaces at its end.
screen_line-trimmed :
    (cs : List VtCell) → AreCharacters cs → screen_line cs ≡ trim_end is_not_space (cells_text cs)
screen_line-trimmed cs a =
    let (tail, e, spaces) = cells_text-trim_end cs in
    let kept = trim_end is_cell_content cs in
    screen_line-cells cs
    ∙ sym (trimmed_text kept (trim_end-EndsFull cs a))
    ∙ sym (trim-append_spaces (cells_text kept) tail spaces)
    ∙ sym (ap (trim_end is_not_space) e)

-- The line of a row is empty where the row has no content.
abbrev pub is_filled : Bytes → Bool
is_filled [] = false
is_filled (b ∷ bs) = true

screen_line-filled :
    (cs : List VtCell) → AreCharacters cs → is_filled (screen_line cs) ≡ has_content cs
unfolding content_end cells_text
screen_line-filled cs a =
    ap is_filled (screen_line-cells cs)
    ∙ go (trim_end is_cell_content cs) (trim_end-EndsFull cs a)
    ∙ sym (ap (λ n. ltb 0 n) (last_from-length is_cell_content cs))
  where
    go : (t : List VtCell) → EndsFull t → is_filled (cells_text t) ≡ ltb 0 (length t)
    go [] full = refl
    go (c ∷ cs) (b, bs, e, same) = ap is_filled e ∙ ground arith

abbrev pub AreRows : Grid → Type 0
AreRows [] = Unit
AreRows (cs ∷ grid) = AreCharacters cs × AreRows grid

trim_rows :
    (grid : Grid)
    → AreRows grid
    → map screen_line (trim_end has_content grid) ≡ trim_end is_filled (map screen_line grid)
trim_rows [] a = refl
trim_rows (cs ∷ grid) a =
    go (has_content cs) (trim_end has_content grid)
    ∙ ap (λ b. keep b (screen_line cs) (map screen_line (trim_end has_content grid)))
        (sym (screen_line-filled cs a.0))
    ∙ ap (keep (is_filled (screen_line cs)) (screen_line cs)) (trim_rows grid a.1)
  where
    go :
        (b : Bool) (t : Grid)
        → map screen_line (keep b cs t) ≡ keep b (screen_line cs) (map screen_line t)
    go true [] = refl
    go false [] = refl
    go true (d ∷ t) = refl
    go false (d ∷ t) = refl

take-map {ℓ} :
    {A B : Type ℓ} (f : A → B) (n : ℕ) (xs : List A) → take n (map f xs) ≡ map f (take n xs)
take-map f zero xs = refl
take-map f (suc n) [] = refl
take-map f (suc n) (x ∷ xs) = ap (λ t. f x ∷ t) (take-map f n xs)

-- The text of a row without the spaces at its end.
abbrev pub trimmed : List VtCell → Bytes
trimmed cs = trim_end is_not_space (cells_text cs)

map-trimmed : (grid : Grid) → AreRows grid → map screen_line grid ≡ map trimmed grid
map-trimmed [] a = refl
map-trimmed (cs ∷ grid) a =
    ap (λ l. l ∷ map screen_line grid) (screen_line-trimmed cs a.0)
    ∙ ap (λ t. trimmed cs ∷ t) (map-trimmed grid a.1)

-- Where every cell with text has a code point, the text of the screen is that of its rows, each without
-- the spaces at its end, up to the last row that is not empty, with line feeds between them.
pub get_screen_content-trimmed :
    (v : View)
    → AreRows (rows_read v)
    → get_screen_content v ≡ join_lines (trim_end is_filled (map trimmed (rows_read v)))
unfolding get_screen_content
get_screen_content-trimmed v a = ap join_lines (
    take-map screen_line (last_from has_content 0 0 (rows_read v)) (rows_read v)
    ∙ ap (map screen_line) (take-last_from has_content (rows_read v))
    ∙ trim_rows (rows_read v) a
    ∙ ap (trim_end is_filled) (map-trimmed (rows_read v) a))
