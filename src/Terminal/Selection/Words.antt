-- ===== src/Terminal/Selection/Words.antt =====
-- `selectWordAt` selects the longest run of cells of one kind around the column.
use fish_term.Prelude.{
  ℕ, zero, suc, ◌+◌, ◌-◌, ◌≤◌, ◌<◌, ◌≡◌, ◌≢◌, refl, true, false, ◌||◌, inl, inr, List, some,
  get_elem?, ltb, ◌==◌, ℤ, Bool-cases, arith,
}
use fish_term.Terminal.Cells.{
  VtCell, TokenKind, whitespace, word, punctuation, eqb_kind, kind_at, word_start, word_end,
}
use fish_term.Terminal.Selection.{View, Selection, clamp_index, row_selection, select_word_at}

-- The columns from `from` to `to` are of one kind, and the columns beside them are of another.
abbrev pub IsRun : List VtCell → TokenKind → ℕ → ℕ → ℕ → Type 0
IsRun cells kind cols from to =
    ((c : ℕ) → from ≤ c → c ≤ to → eqb_kind (kind_at cells c) kind ≡ true)
    × ((c : ℕ) → c + 1 ≡ from → eqb_kind (kind_at cells c) kind ≡ false)
    × (to + 1 < cols → eqb_kind (kind_at cells (to + 1)) kind ≡ false)

at_or_beside :
    (cells : List VtCell) (kind : TokenKind) (c col : ℕ)
    → eqb_kind (kind_at cells col) kind ≡ true
    → (c ≢ col → eqb_kind (kind_at cells c) kind ≡ true)
    → eqb_kind (kind_at cells c) kind ≡ true
at_or_beside cells kind c col same beside = elim (Bool-cases (c == col)) [
  | inl here ↦ (let e : c ≡ col = ground arith in rw e same)
  | inr there ↦ beside (ground arith)
]

word_start_lem :
    (cells : List VtCell) (kind : TokenKind) (col : ℕ)
    → (word_start cells kind col ≤ col)
      × ((c : ℕ) → word_start cells kind col ≤ c → c < col → eqb_kind (kind_at cells c) kind ≡ true)
      × ((c : ℕ) → c + 1 ≡ word_start cells kind col → eqb_kind (kind_at cells c) kind ≡ false)
unfolding word_start
word_start_lem cells kind zero =
    (omega arith, λ c h k. absurd (omega arith), λ c h. absurd (omega arith))
word_start_lem cells kind (suc col) = elim (Bool-cases (eqb_kind (kind_at cells col) kind)) [
  | inl same ↦
      rw (same, word_start)
        (let (low, inside, before) = word_start_lem cells kind col in
          (
            omega arith,
            λ c h k. at_or_beside cells kind c col same (λ other. inside c h (omega arith)),
            before,
          ))
  | inr other ↦
      rw (other, word_start)
        (
          omega arith,
          λ c h k. absurd (omega arith),
          λ c h. (let e : c ≡ col = omega arith in rw e other),
        )
]

word_end_lem :
    (cells : List VtCell) (kind : TokenKind) (left col : ℕ)
    → (col ≤ word_end cells kind left col)
      × (word_end cells kind left col ≤ col + left)
      × ((c : ℕ)
          → col < c
          → c ≤ word_end cells kind left col
          → eqb_kind (kind_at cells c) kind ≡ true)
      × (word_end cells kind left col < col + left
          → eqb_kind (kind_at cells (word_end cells kind left col + 1)) kind ≡ false)
unfolding word_end
word_end_lem cells kind zero col =
    (omega arith, omega arith, λ c h k. absurd (omega arith), λ h. absurd (omega arith))
word_end_lem cells kind (suc left) col =
    elim (Bool-cases (eqb_kind (kind_at cells (col + 1)) kind)) [
      | inl same ↦
          rw (same, word_end)
            (let (low, high, inside, behind) = word_end_lem cells kind left (col + 1) in
              (
                omega arith,
                omega arith,
                λ c h k.
                    at_or_beside cells kind c (col + 1) same (λ other. inside c (omega arith) k),
                λ h. behind (omega arith),
              ))
      | inr other ↦
          rw (other, word_end) (omega arith, omega arith, λ c h k. absurd (omega arith), λ h. other)
    ]

eqb_kind_refl : (k : TokenKind) → eqb_kind k k ≡ true
eqb_kind_refl whitespace = refl
eqb_kind_refl word = refl
eqb_kind_refl punctuation = refl

-- The run around a column.
word-IsRun :
    (cells : List VtCell) (cols col : ℕ)
    → col < cols
    → (let kind = kind_at cells col in
        let from = word_start cells kind col in
        let to = word_end cells kind (cols - (col + 1)) col in
        (from ≤ col) × (col ≤ to) × (to < cols) × IsRun cells kind cols from to)
word-IsRun cells cols col h =
    let kind = kind_at cells col in
    let (low, left, before) = word_start_lem cells kind col in
    let (high, bound, right, behind) = word_end_lem cells kind (cols - (col + 1)) col in
    (
      low,
      high,
      omega arith,
      (
        λ c from to. at_or_beside cells kind c col (eqb_kind_refl kind) (λ other.
            elim (Bool-cases (ltb c col)) [
              | inl less ↦ left c from (ground arith)
              | inr more ↦ right c (ground arith) to
            ]),
        before,
        λ inside. behind (omega arith),
      ),
    )

pub clamp_index-lt : (value : ℤ) (limit : ℕ) → 0 < limit → clamp_index value limit < limit
unfolding clamp_index
clamp_index-lt value limit h = ground arith

-- With cells for the clicked row, a double click selects from that row the longest run of cells of
-- the kind of the clicked one: its row, a range around its column, every cell of which is of that
-- kind, and no such cell beside it.
pub select_word_at-IsRun :
    (v : View) (row col : ℤ) (s : Selection) (cells : List VtCell)
    → 0 < v.rows
    → 0 < v.cols
    → get_elem? v.grid (clamp_index row v.rows) ≡ some cells
    → (from : ℕ) × (to : ℕ) × (select_word_at v row col s
        ≡ row_selection (v.top + clamp_index row v.rows) from to)
      × (from ≤ clamp_index col v.cols)
      × (clamp_index col v.cols ≤ to)
      × (to < v.cols)
      × IsRun cells (kind_at cells (clamp_index col v.cols)) v.cols from to
unfolding select_word_at
select_word_at-IsRun v row col s cells has_rows has_cols found =
    let target = clamp_index col v.cols in
    let kind = kind_at cells target in
    let (low, high, bound, run) =
      word-IsRun cells v.cols target (clamp_index-lt col v.cols has_cols) in
    let some_cells : (v.rows == 0 || v.cols == 0) ≡ false = ground arith in
    (
      word_start cells kind target,
      word_end cells kind (v.cols - (target + 1)) target,
      rw some_cells (rw found refl),
      low,
      high,
      bound,
      run,
    )
