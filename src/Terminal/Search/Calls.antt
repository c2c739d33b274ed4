-- ===== src/Terminal/Search/Calls.antt =====
-- The calls of the search, in any order: the selected index is that of a match, and the calls of
-- `navigateSearch` undo each other.
use fish_term.Prelude.{
  ℕ, ◌≡◌, refl, ◌∙◌, Bool, true, false, not, ◌||◌, ◌&&◌, ◌||◌, ◌&&◌, List, [], ◌∷◌, length, Option,
  none, some, Bool-cases, inl, inr, if◌then◌else◌, arith, ◌==◌,
}
use fish_term.Terminal.Viewport.{Scrollbar, Scroll}
use fish_term.Terminal.Search.{
  Bytes, SearchMatch, Search, is_empty, rebuild, next_selected, scroll_to, selected_match, sync,
  start_search, navigate, no_search, end_search,
}
use fish_term.Terminal.Search.Selected.{
  IsSearch, rebuild-IsSearch, next_selected-IsSelection, next_selected-undo,
}

-- Scrolling to the selected match keeps the search.
abbrev pub SameSearch : Search → Search → Type 0
SameSearch s t =
    (t.active ≡ s.active)
    × (t.query ≡ s.query)
    × (t.matches ≡ s.matches)
    × (t.selected ≡ s.selected)

scroll_to-SameSearch :
    (scroll : Scroll → Scrollbar → Scrollbar) (rows : ℕ) (bar : Scrollbar) (m : SearchMatch)
    (s : Search)
    → SameSearch s (scroll_to scroll rows bar m s).0
unfolding scroll_to
scroll_to-SameSearch scroll rows bar m s = ground arith

sync-SameSearch :
    (scroll : Scroll → Scrollbar → Scrollbar) (rows : ℕ) (bar : Scrollbar) (s : Search)
    → SameSearch s (sync scroll rows bar s).0
unfolding sync
sync-SameSearch scroll rows bar s = go s.active (selected_match s)
  where
    go :
        (active : Bool) (found : Option SearchMatch)
        → SameSearch s
            (if◌then◌else◌ {A = Search × Scrollbar} active
              (elim found [ none ↦ (s, bar) | some m ↦ scroll_to scroll rows bar m s ])
              (s, bar)).0
    go false found = (refl, refl, refl, refl)
    go true none = (refl, refl, refl, refl)
    go true (some m) = scroll_to-SameSearch scroll rows bar m s

sync-IsSearch :
    (scroll : Scroll → Scrollbar → Scrollbar) (rows : ℕ) (bar : Scrollbar) (s : Search)
    → IsSearch s
    → IsSearch (sync scroll rows bar s).0
sync-IsSearch scroll rows bar s h =
    let (a, q, ms, i) = sync-SameSearch scroll rows bar s in rw ms (rw i h)

start_search-IsSearch :
    (scroll : Scroll → Scrollbar → Scrollbar) (rows : ℕ) (bar : Scrollbar) (snapshot : List Bytes)
    (query : Bytes) (s : Search)
    → IsSearch (start_search scroll rows bar snapshot query s).0
unfolding start_search
start_search-IsSearch scroll rows bar snapshot query s =
    sync-IsSearch scroll rows bar
      (rebuild rows bar snapshot (record s { active = true; query = query }))
      (rebuild-IsSearch rows bar snapshot (record s { active = true; query = query }))

navigate-IsSearch :
    (scroll : Scroll → Scrollbar → Scrollbar) (rows : ℕ) (bar : Scrollbar) (next : Bool)
    (s : Search)
    → IsSearch s
    → IsSearch (navigate scroll rows bar next s).0
unfolding navigate
navigate-IsSearch scroll rows bar next s h =
    elim (Bool-cases (not s.active || length s.matches == 0)) [
      | inl e ↦ rw e h
      | inr e ↦ rw e (
          sync-IsSearch scroll rows bar
            (record s { selected = next_selected next (length s.matches) s.selected })
            (next_selected-IsSelection next (length s.matches) s.selected h (ground arith)))
    ]

end_search-IsSearch : (s : Search) → IsSearch s → IsSearch (end_search s)
unfolding end_search
end_search-IsSearch s h =
    elim (Bool-cases (not s.active && is_empty s.query && length s.matches == 0)) [
      | inl e ↦ rw e h
      | inr e ↦ rw e (refl, refl)
    ]

-- The calls of the search: what libghostty-vt holds at each of them is part of the call.
pub data SearchCall : Type 0 where
  start : (Scroll → Scrollbar → Scrollbar) → ℕ → Scrollbar → List Bytes → Bytes → SearchCall
  turn : (Scroll → Scrollbar → Scrollbar) → ℕ → Scrollbar → Bool → SearchCall
  end : SearchCall

abbrev pub search_step : SearchCall → Search → Search
search_step (start scroll rows bar snapshot query) s =
    (start_search scroll rows bar snapshot query s).0
search_step (turn scroll rows bar next) s = (navigate scroll rows bar next s).0
search_step end s = end_search s

abbrev pub search_run : List SearchCall → Search → Search
search_run [] s = s
search_run (c ∷ cs) s = search_run cs (search_step c s)

search_run-from : (cs : List SearchCall) (s : Search) → IsSearch s → IsSearch (search_run cs s)
search_run-from [] s h = h
search_run-from (start scroll rows bar snapshot query ∷ cs) s h =
    search_run-from cs (start_search scroll rows bar snapshot query s).0
      (start_search-IsSearch scroll rows bar snapshot query s)
search_run-from (turn scroll rows bar next ∷ cs) s h =
    search_run-from cs (navigate scroll rows bar next s).0
      (navigate-IsSearch scroll rows bar next s h)
search_run-from (end ∷ cs) s h = search_run-from cs (end_search s) (end_search-IsSearch s h)

-- After any calls on a new terminal, the selected index is that of a match, or -1 and there is no
-- match.
pub search_run-IsSearch : (cs : List SearchCall) → IsSearch (search_run cs no_search)
search_run-IsSearch cs = search_run-from cs no_search (refl, refl)

navigate_lem :
    (scroll : Scroll → Scrollbar → Scrollbar) (rows : ℕ) (bar : Scrollbar) (next : Bool)
    (s : Search)
    → ((navigate scroll rows bar next s).0.active ≡ s.active)
      × ((navigate scroll rows bar next s).0.query ≡ s.query)
      × ((navigate scroll rows bar next s).0.matches ≡ s.matches)
      × ((navigate scroll rows bar next s).0.selected ≡ (
          if not s.active || length s.matches == 0
          then s.selected
          else next_selected next (length s.matches) s.selected))
unfolding navigate
navigate_lem scroll rows bar next s = elim (Bool-cases (not s.active || length s.matches == 0)) [
  | inl e ↦ rw e (refl, refl, refl, refl)
  | inr e ↦ rw e (
      sync-SameSearch scroll rows bar
        (record s { selected = next_selected next (length s.matches) s.selected }))
]

turned_back :
    (next : Bool) (s : Search)
    → IsSearch s
    → (if not s.active || length s.matches == 0
        then (if not s.active || length s.matches == 0
            then s.selected
            else next_selected next (length s.matches) s.selected)
        else next_selected (not next) (length s.matches) (
            if not s.active || length s.matches == 0
            then s.selected
            else next_selected next (length s.matches) s.selected))
      ≡ s.selected
turned_back next s h = elim (Bool-cases (not s.active || length s.matches == 0)) [
  | inl e ↦ rw e refl
  | inr e ↦ rw e (next_selected-undo next (length s.matches) s.selected h (ground arith))
]

-- `navigateSearch` and then the opposite call leave the active flag, the query, the matches and the
-- selected index as they were, whatever the scrollbar reports and the scrolling does at either call, if the selected index
-- is that of a match, or -1 without a match.
pub navigate-back :
    (scroll scroll' : Scroll → Scrollbar → Scrollbar) (rows rows' : ℕ) (bar bar' : Scrollbar)
    (next : Bool) (s : Search)
    → IsSearch s
    → SameSearch s (navigate scroll' rows' bar' (not next) (navigate scroll rows bar next s).0).0
navigate-back scroll scroll' rows rows' bar bar' next s h =
    let (a, q, ms, i) = navigate_lem scroll rows bar next s in
    let (a', q', ms', i') =
      navigate_lem scroll' rows' bar' (not next) (navigate scroll rows bar next s).0 in
    (a' ∙ a, q' ∙ q, ms' ∙ ms, i' ∙ rw a (rw ms (rw i (turned_back next s h))))
