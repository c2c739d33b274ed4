-- ===== src/Terminal/Search/Scrolled.antt =====
-- Where the search leaves the viewport, on a libghostty-vt whose viewport stays within its rows.
use fish_term.Prelude.{
  ℕ, ◌+◌, ◌-◌, ◌*◌, ◌≤◌, ◌<◌, ◌≡◌, refl, sym, subst, ap, ◌∙◌, Bool, true, false, ◌&&◌, ◌||◌, not,
  inl, inr, Bool-cases, Option, none, some, ltb, leb, ◌==◌, if◌then◌else◌, min, ℤ, pos, negsuc,
  pos_part, ◌+ℤ◌, ◌-ℤ◌, min_ℤ, max_ℤ, arith,
}
use fish_term.Terminal.Viewport.{
  Scrollbar, Scroll, to_top, by, viewport_top, viewport_rows, max_offset, target_top,
}
use fish_term.Terminal.Search.{
  SearchMatch, Search, visible, times, find_step, scroll_to, selected_match, sync,
}

-- A scrollbar that shows some rows, within the rows that there are.
abbrev pub IsBar : Scrollbar → Type 0
IsBar bar = (0 < bar.len) × (bar.offset + bar.len ≤ bar.total)

-- The viewport with another first row.
abbrev pub at_row : Scrollbar → ℕ → Scrollbar
at_row bar row = record bar { offset = row }

-- What libghostty-vt does to the viewport: the top is row 0, and a delta, which is negative for up, is
-- added to the first row as far as the viewport stays within the rows.
pub record IsScroll (scroll : Scroll → Scrollbar → Scrollbar) : Type 0 where
  pub top_law : (bar : Scrollbar) → IsBar bar → scroll to_top bar ≡ at_row bar 0
  pub delta_law :
      (bar : Scrollbar) (delta : ℤ)
      → IsBar bar
      → scroll (by delta) bar
        ≡ at_row bar
            (pos_part (min_ℤ (max_ℤ (pos 0) (pos bar.offset +ℤ delta)) (pos (bar.total - bar.len))))

-- On such a scrollbar the fields are the rows.
bar_lem :
    (rows : ℕ) (bar : Scrollbar)
    → IsBar bar
    → (viewport_rows rows bar ≡ bar.len)
      × (max_offset rows bar ≡ bar.total - bar.len)
      × (viewport_top rows bar ≡ bar.offset)
unfolding viewport_rows max_offset viewport_top
bar_lem rows bar is_bar = ground arith

moved_by :
    (scroll : Scroll → Scrollbar → Scrollbar) (bar : Scrollbar) (row target : ℕ) (delta : ℤ)
    → IsScroll scroll
    → IsBar (at_row bar row)
    → pos_part (min_ℤ (max_ℤ (pos 0) (pos row +ℤ delta)) (pos (bar.total - bar.len))) ≡ target
    → scroll (by delta) (at_row bar row) ≡ at_row bar target
moved_by scroll bar row target delta law is_bar e =
    law.delta_law (at_row bar row) delta is_bar ∙ ap (at_row bar) e

up_lem :
    (total len : ℕ) → pos_part (min_ℤ (max_ℤ (pos 0) (pos 0 +ℤ negsuc 0)) (pos (total - len))) ≡ 0
unfolding ◌+ℤ◌
up_lem total len = ground arith

down_lem :
    (total len : ℕ)
    → len < total
    → pos_part (min_ℤ (max_ℤ (pos 0) (pos 0 +ℤ pos 1)) (pos (total - len))) ≡ 1
unfolding ◌+ℤ◌
down_lem total len more = ground arith

back_lem :
    (row total len : ℕ)
    → pos_part (min_ℤ (max_ℤ (pos 0) (pos 1 +ℤ pos row)) (pos (total - len)))
      ≡ min (row + 1) (total - len)
unfolding ◌+ℤ◌
back_lem row total len = ground arith

-- The way back from the row below the top.
returned :
    (scroll : Scroll → Scrollbar → Scrollbar) (bar : Scrollbar)
    → IsScroll scroll
    → IsBar (at_row bar 1)
    → (if ltb 0 bar.offset then scroll (by (pos (1 * bar.offset))) (at_row bar 1) else at_row bar 1)
      ≡ at_row bar (min (bar.offset + 1) (bar.total - bar.len))
returned scroll bar law one = elim (Bool-cases (ltb 0 bar.offset)) [
  | inl away ↦ rw away (
      ap (λ n. scroll (by (pos n)) (at_row bar 1)) (omega arith)
      ∙ moved_by scroll bar 1 (min (bar.offset + 1) (bar.total - bar.len)) (pos bar.offset) law one
          (back_lem bar.offset bar.total bar.len))
  | inr there ↦ rw there (ap (at_row bar) (ground arith))
]

-- The search for the step leaves the viewport a row lower, unless it was at the bottom.
find_step_lem :
    (scroll : Scroll → Scrollbar → Scrollbar) (rows : ℕ) (bar : Scrollbar)
    → IsScroll scroll
    → IsBar bar
    → bar.len < bar.total
    → find_step scroll rows bar ≡ (pos 1, at_row bar (min (bar.offset + 1) (bar.total - bar.len)))
unfolding find_step
find_step_lem scroll rows bar law is_bar more =
    let (_, last, first) = bar_lem rows bar is_bar in
    let start : IsBar (at_row bar 0) = (is_bar.0, omega arith) in
    let one : IsBar (at_row bar 1) = (is_bar.0, omega arith) in
    let up = moved_by scroll bar 0 0 (negsuc 0) law start (up_lem bar.total bar.len) in
    let down = moved_by scroll bar 0 1 (pos 1) law start (down_lem bar.total bar.len more) in
    let many : ((bar.total - bar.len) == 0) ≡ false = ground arith in
    let no_up : ltb 0 (min 0 (bar.total - bar.len)) ≡ false = ground arith in
    let some_down : ltb 0 (min 1 (bar.total - bar.len)) ≡ true = ground arith in
    rw
      (
        law.top_law bar is_bar,
        up,
        law.top_law (at_row bar 0) start,
        down,
        last,
        first,
        many,
        no_up,
        some_down,
      )
      (ap (λ b. (pos 1, b)) (returned scroll bar law one))

-- The first row that the viewport really has after the search has scrolled towards `target`: one row
-- below it, unless the viewport was at the bottom or gets there.
abbrev pub landed : Scrollbar → ℕ → ℕ
landed bar target =
    if ltb (bar.offset + bar.len) bar.total then min (target + 1) (bar.total - bar.len) else target

times_one : (a : ℤ) → times (pos 1) a ≡ a
unfolding times ◌-ℤ◌
times_one (pos n) = ap pos (omega arith)
times_one (negsuc n) = ground arith

landed_lem :
    (bar : Scrollbar) (target : ℕ)
    → IsBar bar
    → target + bar.len ≤ bar.total
    → pos_part (
        min_ℤ
          (max_ℤ
            (pos 0)
            (pos (min (bar.offset + 1) (bar.total - bar.len)) +ℤ (pos target -ℤ pos bar.offset)))
          (pos (bar.total - bar.len)))
      ≡ landed bar target
unfolding ◌+ℤ◌ ◌-ℤ◌
landed_lem bar target is_bar fits = ground arith

-- The row of a match that the search scrolls past: it was out of sight, with the viewport above the
-- bottom, and it is the first row, or any but the last one where the viewport has one row.
abbrev pub is_passed : Scrollbar → ℕ → Bool
is_passed bar row =
    not (leb bar.offset row && ltb row (bar.offset + bar.len))
    && ltb (bar.offset + bar.len) bar.total
    && (row == 0 || (bar.len == 1 && ltb (row + 1) bar.total))

landed-visible :
    (rows : ℕ) (bar : Scrollbar) (m : SearchMatch)
    → IsBar bar
    → m.row < bar.total
    → visible bar.offset bar.len m ≡ false
    → visible (landed bar (target_top rows bar m.row)) bar.len m ≡ not (is_passed bar m.row)
unfolding target_top viewport_rows max_offset
landed-visible rows bar m is_bar inside hidden = ground arith

target_lem :
    (rows : ℕ) (bar : Scrollbar) (m : SearchMatch)
    → IsBar bar
    → m.row < bar.total
    → visible bar.offset bar.len m ≡ false
    → (target_top rows bar m.row + bar.len ≤ bar.total)
      × ((target_top rows bar m.row == bar.offset) ≡ false)
unfolding target_top viewport_rows max_offset
target_lem rows bar m is_bar inside hidden = ground arith

scroll_to_lem :
    (scroll : Scroll → Scrollbar → Scrollbar) (rows : ℕ) (bar : Scrollbar) (m : SearchMatch)
    (s : Search)
    → IsScroll scroll
    → IsBar bar
    → m.row < bar.total
    → visible bar.offset bar.len m ≡ false
    → scroll_to scroll rows bar m s ≡ (
      record s { viewport_top_row = target_top rows bar m.row },
      at_row bar (landed bar (target_top rows bar m.row)),
    )
unfolding scroll_to
scroll_to_lem scroll rows bar m s law is_bar inside hidden =
    let (size, last, first) = bar_lem rows bar is_bar in
    let more : bar.len < bar.total = ground arith in
    let (fits, other) = target_lem rows bar m is_bar inside hidden in
    rw (first, size, hidden, find_step_lem scroll rows bar law is_bar more, other)
      (ap (λ b. (record s { viewport_top_row = target_top rows bar m.row }, b))
        (ap (λ d. scroll (by d) (at_row bar (min (bar.offset + 1) (bar.total - bar.len))))
            (times_one (pos (target_top rows bar m.row) -ℤ pos bar.offset))
          ∙ moved_by scroll bar (min (bar.offset + 1) (bar.total - bar.len))
              (landed bar (target_top rows bar m.row))
              (pos (target_top rows bar m.row) -ℤ pos bar.offset) law (is_bar.0, omega arith)
              (landed_lem bar (target_top rows bar m.row) is_bar fits)))

scroll_to_here :
    (scroll : Scroll → Scrollbar → Scrollbar) (rows : ℕ) (bar : Scrollbar) (m : SearchMatch)
    (s : Search)
    → IsBar bar
    → visible bar.offset bar.len m ≡ true
    → scroll_to scroll rows bar m s ≡ (record s { viewport_top_row = bar.offset }, bar)
unfolding scroll_to
scroll_to_here scroll rows bar m s is_bar shown =
    let (size, last, first) = bar_lem rows bar is_bar in rw (first, size, shown) refl

-- What the search leaves of a viewport for a match: the viewport, the top row that it records, and
-- whether the match is on display.
abbrev pub IsScrolled : ℕ → Scrollbar → SearchMatch → Search × Scrollbar → Type 0
IsScrolled rows bar m (after, moved) =
    (moved ≡ (
      if visible bar.offset bar.len m then bar else at_row bar (landed bar after.viewport_top_row)))
    × (visible after.viewport_top_row bar.len m ≡ true)
    × (visible moved.offset bar.len m ≡ not (is_passed bar m.row))

recorded_lem :
    (rows : ℕ) (bar : Scrollbar) (m : SearchMatch)
    → IsBar bar
    → m.row < bar.total
    → visible (target_top rows bar m.row) bar.len m ≡ true
unfolding target_top viewport_rows max_offset
recorded_lem rows bar m is_bar inside = ground arith

scroll_to-IsScrolled :
    (scroll : Scroll → Scrollbar → Scrollbar) (rows : ℕ) (bar : Scrollbar) (m : SearchMatch)
    (s : Search)
    → IsScroll scroll
    → IsBar bar
    → m.row < bar.total
    → IsScrolled rows bar m (scroll_to scroll rows bar m s)
scroll_to-IsScrolled scroll rows bar m s law is_bar inside =
    elim (Bool-cases (visible bar.offset bar.len m)) [
      | inl shown ↦
          rw (scroll_to_here scroll rows bar m s is_bar shown) (rw shown (refl, refl, refl))
      | inr hidden ↦ rw (scroll_to_lem scroll rows bar m s law is_bar inside hidden) (
          rw hidden (
            refl,
            recorded_lem rows bar m is_bar inside,
            rw hidden at (landed-visible rows bar m is_bar inside hidden),
          ))
    ]

-- Where libghostty-vt shows row 0 at the top and adds a delta to the first row as far as the viewport
-- stays within the rows, `syncSearchSelectionToViewportLocked` of an active search, with a match in
-- the scrollback selected and a scrollbar within its rows, records a top row from which the match is on display, and leaves the
-- viewport as it is if it shows the match. Otherwise the viewport lands on the row behind the top row
-- recorded, unless it was at the bottom, where it lands on that row, or gets there. So the match is on
-- display afterwards, except that a match out of sight, with the viewport above the bottom, stays out
-- of sight on row 0, and, where the viewport has one row, on any row but the last.
pub sync-IsScrolled :
    (scroll : Scroll → Scrollbar → Scrollbar) (rows : ℕ) (bar : Scrollbar) (m : SearchMatch)
    (s : Search)
    → IsScroll scroll
    → IsBar bar
    → s.active ≡ true
    → selected_match s ≡ some m
    → m.row < bar.total
    → IsScrolled rows bar m (sync scroll rows bar s)
unfolding sync
sync-IsScrolled scroll rows bar m s law is_bar active chosen inside =
    subst (IsScrolled rows bar m) (sym (go s.active (selected_match s) active chosen))
      (scroll_to-IsScrolled scroll rows bar m s law is_bar inside)
  where
    go :
        (on : Bool) (found : Option SearchMatch)
        → on ≡ true
        → found ≡ some m
        → (if on
            then elim found [ none ↦ (s, bar) | some m' ↦ scroll_to scroll rows bar m' s ]
            else (s, bar))
          ≡ scroll_to scroll rows bar m s
    go on found e f = rw (e, f) refl
