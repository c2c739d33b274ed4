-- ===== src/Terminal/Search.antt =====
-- The search of the class `Terminal`: `rebuildSearchMatchesLocked`, `startSearch`, `updateSearch`,
-- `navigateSearch` and `endSearch`. The lines of the scrollback, which
-- `captureScrollbackSnapshotLocked` reads cell by cell from libghostty-vt, and the scrollbar are
-- arguments; a call gives back the scrollbar that its scrolling leaves. A line is its bytes.
pub mod Matches
pub mod Selected
pub mod Calls
pub mod Display
pub mod Scrolled
use fish_term.Prelude.{
  ℕ, zero, suc, ◌+◌, ◌-◌, ◌%◌, Bool, true, false, ◌&&◌, ◌||◌, not, List, [], ◌∷◌, ◌++◌, map, length,
  drop, Option, none, some, ℤ, pos, negsuc, eqb_ℤ, ◌-ℤ◌, get_elem?, ◌*◌, leb, ltb, ◌==◌,
  if◌then◌else◌, min,
}
use fish_term.Terminal.Viewport.{
  Scrollbar, Scroll, to_top, by, viewport_rows, max_offset, viewport_top, target_top,
}

abbrev pub Bytes : Type 0
Bytes = List ℕ

-- `SearchMatch`
pub record SearchMatch : Type 0 where
  pub row : ℕ
  pub start_byte : ℕ
  pub end_byte : ℕ

pub record Search : Type 0 where
  pub active : Bool
  pub query : Bytes
  pub matches : List SearchMatch
  pub viewport_top_row : ℕ
  pub selected : ℤ

-- `std::tolower` of a byte, in the C locale.
unfoldable pub to_lower : ℕ → ℕ
to_lower c = if leb b'A' c && leb c b'Z' then c + 32 else c

-- `AsciiLower`
unfoldable pub ascii_lower : Bytes → Bytes
ascii_lower = map to_lower

-- `query` stands at the front of the text.
unfoldable pub is_prefix : Bytes → Bytes → Bool
is_prefix [] text = true
is_prefix (q ∷ query) [] = false
is_prefix (q ∷ query) (c ∷ text) = q == c && is_prefix query text

-- The first place of `query` in the text, whose first byte has the index `i`.
unfoldable pub find_here : Bytes → ℕ → Bytes → Option ℕ
find_here query i [] = if is_prefix query [] then some i else none
find_here query i (c ∷ text) =
    if is_prefix query (c ∷ text) then some i else find_here query (i + 1) text

-- `std::string::find(query, from)`
unfoldable pub find : Bytes → Bytes → ℕ → Option ℕ
find text query from =
    if leb from (length text) then find_here query from (drop from text) else none

-- The loop `while (pos != npos)` of one line, for at most `fuel` matches.
unfoldable pub line_matches : ℕ → ℕ → Bytes → Bytes → Option ℕ → List SearchMatch
line_matches zero row text query found = []
line_matches (suc fuel) row text query none = []
line_matches (suc fuel) row text query (some p) =
    record { row = row; start_byte = p; end_byte = p + length query }
    ∷ line_matches fuel row text query (find text query (p + 1))

-- The loop over the snapshot from row `row`. Each match of a line starts at another of its bytes.
unfoldable pub all_matches : ℕ → List Bytes → Bytes → List SearchMatch
all_matches row [] query = []
all_matches row (line ∷ lines) query =
    let text = ascii_lower line in
    line_matches (length text + 1) row text query (find text query 0)
    ++ all_matches (row + 1) lines query

-- `match.row >= viewportTopRow && match.row < viewportTopRow + viewportRows`
abbrev pub visible : ℕ → ℕ → SearchMatch → Bool
visible top rows m = leb top m.row && ltb m.row (top + rows)

-- The index of the first match on display, or 0.
unfoldable pub first_visible : ℕ → ℕ → ℕ → List SearchMatch → ℕ
first_visible top rows i [] = 0
first_visible top rows i (m ∷ ms) =
    let later = first_visible top rows (i + 1) ms in if visible top rows m then i else later

abbrev pub is_empty : Bytes → Bool
is_empty [] = true
is_empty (c ∷ cs) = false

abbrev pub selection_of : ℕ → ℕ → List SearchMatch → ℤ
selection_of top rows [] = negsuc 0
selection_of top rows (m ∷ ms) = pos (first_visible top rows 0 (m ∷ ms))

-- `rebuildSearchMatchesLocked`
unfoldable pub rebuild : ℕ → Scrollbar → List Bytes → Search → Search
rebuild rows bar snapshot s =
    if not s.active || is_empty s.query
    then record s { matches = []; selected = negsuc 0; viewport_top_row = viewport_top rows bar }
    else (let found = all_matches 0 snapshot (ascii_lower s.query) in
        record s {
          matches = found;
          viewport_top_row = viewport_top rows bar;
          selected = selection_of (viewport_top rows bar) (viewport_rows rows bar) found;
        })

-- `stepTowardsBottom * logicalDelta`
unfoldable pub times : ℤ → ℤ → ℤ
times (pos a) (pos b) = pos (a * b)
times (pos a) (negsuc b) = pos 0 -ℤ pos (a * (b + 1))
times (negsuc a) (pos b) = pos 0 -ℤ pos ((a + 1) * b)
times (negsuc a) (negsuc b) = pos ((a + 1) * (b + 1))

-- `determineScrollStepTowardsBottomLocked`, where `scroll` is what `scrollViewportLocked` does to the
-- viewport: the step towards the bottom, or 0, and the viewport that it leaves. Both candidates are
-- tried from the top.
unfoldable pub find_step : (Scroll → Scrollbar → Scrollbar) → ℕ → Scrollbar → ℤ × Scrollbar
unfolding times
find_step scroll rows bar =
    let last = max_offset rows bar in
    let first = viewport_top rows bar in
    let up = scroll (by (negsuc 0)) (scroll to_top bar) in
    let down = scroll (by (pos 1)) (scroll to_top up) in
    if last == 0
    then (pos 0, bar)
    else if ltb 0 (min up.offset last)
    then (negsuc 0, if ltb 0 first then scroll (by (times (negsuc 0) (pos first))) up else up)
    else if ltb 0 (min down.offset last)
    then (pos 1, if ltb 0 first then scroll (by (times (pos 1) (pos first))) down else down)
    else (pos 0, scroll to_top down)

-- The scrolling to a match: the new state, and the viewport that it leaves.
unfoldable pub scroll_to :
    (Scroll → Scrollbar → Scrollbar) → ℕ → Scrollbar → SearchMatch → Search → Search × Scrollbar
scroll_to scroll rows bar m s =
    let top = viewport_top rows bar in
    let target = target_top rows bar m.row in
    let probed : ℤ × Scrollbar = find_step scroll rows bar in
    if visible top (viewport_rows rows bar) m
    then (record s { viewport_top_row = top }, bar)
    else if not (eqb_ℤ probed.0 (pos 0)) && not (target == top)
    then (
      record s { viewport_top_row = target },
      scroll (by (times probed.0 (pos target -ℤ pos top))) probed.1,
    )
    else (record s { viewport_top_row = top }, probed.1)

-- The match that `m_searchSelectedIndex` names, where it names one.
unfoldable pub selected_match : Search → Option SearchMatch
selected_match s = elim s.selected [ negsuc n ↦ none | pos i ↦ get_elem? s.matches i ]

-- `syncSearchSelectionToViewportLocked`
unfoldable pub sync : (Scroll → Scrollbar → Scrollbar) → ℕ → Scrollbar → Search → Search × Scrollbar
sync scroll rows bar s =
    if s.active
    then elim (selected_match s) [ none ↦ (s, bar) | some m ↦ scroll_to scroll rows bar m s ]
    else (s, bar)

-- `startSearch` and `updateSearch`
unfoldable pub start_search :
    (Scroll → Scrollbar → Scrollbar)
    → ℕ
    → Scrollbar
    → List Bytes
    → Bytes
    → Search
    → Search × Scrollbar
start_search scroll rows bar snapshot query s =
    sync scroll rows bar (rebuild rows bar snapshot (record s { active = true; query = query }))

-- The new index of `navigateSearch`, where there are `n` matches.
unfoldable pub next_selected : Bool → ℕ → ℤ → ℤ
next_selected next n (negsuc i) = if next then pos 0 else pos (n - 1)
next_selected next n (pos i) = if next then pos ((i + 1) % n) else pos ((i + n - 1) % n)

-- `navigateSearch`
unfoldable pub navigate :
    (Scroll → Scrollbar → Scrollbar) → ℕ → Scrollbar → Bool → Search → Search × Scrollbar
navigate scroll rows bar next s =
    if not s.active || length s.matches == 0
    then (s, bar)
    else sync scroll rows bar
        (record s { selected = next_selected next (length s.matches) s.selected })

-- `endSearch`
unfoldable pub end_search : Search → Search
end_search s =
    if not s.active && is_empty s.query && length s.matches == 0
    then s
    else record s { active = false; query = []; matches = []; selected = negsuc 0 }

-- A `Terminal` starts without a search.
abbrev pub no_search : Search
no_search = record {
  active = false;
  query = [];
  matches = [];
  viewport_top_row = 0;
  selected = negsuc 0;
}
