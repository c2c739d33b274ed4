-- ===== src/Terminal/Frame/Highlighted.antt =====
-- The cells that a frame highlights are those that the selection copies.
use fish_term.Prelude.{
  ℕ, ◌+◌, ◌-◌, ◌≤◌, ◌≡◌, refl, sym, ap, ◌∙◌, Bool, true, false, ◌&&◌, ◌||◌, not, inl, inr, List, [],
  ◌∷◌, length, take, drop, map, some, Option-cases, ltb, ◌==◌, if◌then◌else◌, ℤ, pos, pos_part,
  ltb_ℤ, eqb_ℤ, Bool-cases, arith,
}
use fish_term.Screen.Cell.{Cell}
use fish_term.Screen.Selection.{Bounds}
use fish_term.Terminal.Cells.{VtCell, is_spacer, content_end}
use fish_term.Terminal.Colours.{RenderColors}
use fish_term.Terminal.Selection.{cells_text, row_text}
use fish_term.Terminal.Frame.{
  StyledCell, Highlight, cell_width, fill_cell, search_cell, search_text, covering, fill_row,
  select_from, select_row, Shown, draw_row,
}
use fish_term.Terminal.Frame.Marks.{
  AreWide, Stands, drop-take, select_from-text, selected_text, selected_text-none,
}

-- A filled row has no cell selected.
search_cell-same :
    (h : Highlight) (row start end : ℕ) (f : Cell)
    → ((search_cell h row start end f).selected ≡ f.selected)
      × ((search_cell h row start end f).width ≡ f.width)
unfolding search_cell
search_cell-same h row start end f = elim (Bool-cases (not h.need_row_text)) [
  | inl off ↦ rw off (refl, refl)
  | inr on ↦ rw on (elim (Option-cases (covering 0 h.matches row start end)) [
    | inl no_match ↦ rw no_match (refl, refl)
    | inr (i, e) ↦ rw e (go (eqb_ℤ (pos i) h.selected_index))
  ])
]
  where
    go : (b : Bool) → (f.selected ≡ f.selected) × (f.width ≡ f.width)
    go b = (refl, refl)

fill_cell-same :
    (colors : RenderColors) (c : StyledCell) (f : Cell)
    → ((fill_cell colors c f).selected ≡ false)
      × ((fill_cell colors c f).width ≡ cell_width c.vt.width)
unfolding fill_cell
fill_cell-same colors c f =
    elim (Bool-cases (c.vt.has_text && not (is_spacer c.vt.width) && not (c.vt.codepoint == 0))) [
      | inl shown ↦ rw shown (refl, refl)
      | inr hidden ↦ rw hidden (refl, refl)
    ]

abbrev pub vt_cells : List StyledCell → List VtCell
vt_cells cs = map (λ c. c.vt) cs

fill_row-Stands :
    (colors : RenderColors) (h : Highlight) (row start : ℕ) (cs : List StyledCell) (old : List Cell)
    → length cs ≤ length old
    → Stands false (vt_cells cs) (fill_row colors h row start cs old)
unfolding fill_row
fill_row-Stands colors h row start [] old room = tt
fill_row-Stands colors h row start (c ∷ cs) [] room = absurd (omega arith)
fill_row-Stands colors h row start (c ∷ cs) (o ∷ old) room =
    let end = start + length (search_text c.vt) in
    let (selected, width) = search_cell-same h row start end (fill_cell colors c o) in
    let (off, as_wide) = fill_cell-same colors c o in
    (
      selected ∙ off,
      λ e. cc,
      width ∙ as_wide,
      fill_row-Stands colors h row end cs old (omega arith),
    )

-- Whether a row lies in the bounds of a selection.
abbrev pub is_in_rows : Bounds → ℤ → Bool
is_in_rows b row = not (ltb_ℤ row b.start_row || ltb_ℤ b.end_row row)

-- The selection's loop on a row, or nothing outside the rows of the selection or behind the content.
marked-text :
    (bg fg cols : ℕ) (cs : List VtCell) (frame : List Cell) (outside behind : Bool) (first end : ℕ)
    → AreWide cs
    → Stands false cs frame
    → selected_text cs (
        if outside
        then frame
        else if behind
        then select_from bg fg (end - first) first cols frame
        else frame)
      ≡ (if not outside then (if behind then cells_text (drop first (take end cs)) else []) else [])
marked-text bg fg cols cs frame true behind first end a s = selected_text-none false cs frame s
marked-text bg fg cols cs frame false false first end a s = selected_text-none false cs frame s
marked-text bg fg cols cs frame false true first end a s =
    select_from-text bg fg (end - first) first cols cs frame a s
    ∙ sym (ap cells_text (drop-take first end cs))

select_row-text :
    (bg fg cols top : ℕ) (colors : RenderColors) (h : Highlight) (b : Bounds) (row : ℤ)
    (cs : List StyledCell) (old : List Cell)
    → AreWide (vt_cells cs)
    → length cs ≤ length old
    → (let frame =
          select_row bg fg b row
            (content_end (vt_cells cs))
            cols
            (fill_row colors h top 0 cs old) in
        selected_text (vt_cells cs) frame
        ≡ (if is_in_rows b row then row_text b row (vt_cells cs) else []))
unfolding select_row row_text
select_row-text bg fg cols top colors h b row cs old a room =
    let content = content_end (vt_cells cs) in
    let first = if eqb_ℤ row b.start_row then pos_part b.start_col else 0 in
    marked-text bg fg cols (vt_cells cs) (fill_row colors h top 0 cs old)
      (ltb_ℤ row b.start_row || ltb_ℤ b.end_row row) (ltb first content) first
      (if eqb_ℤ row b.end_row && ltb (pos_part b.end_col + 1) content
        then pos_part b.end_col + 1
        else content)
      a (fill_row-Stands colors h top 0 cs old room)

-- On a row where every wide cell has a spacer behind it, and the cells of the render state fit the
-- buffer, the cells that the frame highlights have the text that the selection copies of the row, and
-- none outside the rows of the selection, whatever the search highlights.
pub draw_row-text :
    (s : Shown) (b : Bounds) (row : ℕ) (cs : List StyledCell) (old : List Cell)
    → AreWide (vt_cells cs)
    → length cs ≤ length old
    → selected_text (vt_cells cs) (draw_row (record s { selection = some b }) row cs old) ≡ (
        if is_in_rows b (pos (s.top + row))
        then row_text b (pos (s.top + row)) (vt_cells cs)
        else [])
unfolding draw_row
draw_row-text s b row cs old a room =
    select_row-text s.selection_background s.selection_foreground s.cols (s.top + row) s.colors
      s.highlight b (pos (s.top + row)) cs old a room
