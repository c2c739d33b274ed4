-- ===== src/Tests/SearchTests.antt =====
-- Runs of the search of terminal.cpp.
use fish_term.Prelude.{
  ℕ, ◌+◌, ◌≡◌, refl, true, false, List, [], ◌∷◌, pos, arith, ◌-◌, pos_part, min_ℤ, max_ℤ, ◌+ℤ◌,
  ◌-ℤ◌,
}
use fish_term.Terminal.Viewport.{Scrollbar, Scroll, to_top, to_bottom, by, viewport_top, target_top}
use fish_term.Terminal.Search.{
  Bytes, SearchMatch, Search, to_lower, ascii_lower, is_prefix, find_here, find, line_matches,
  all_matches, first_visible, rebuild, find_step, times, scroll_to, selected_match, sync,
  next_selected, navigate, end_search, no_search,
}
use fish_term.Terminal.Search.Matches.{all_occurrences, rebuild-all_occurrences}
use fish_term.Terminal.Search.Calls.{
  SearchCall, start, turn, end, search_run, search_run-IsSearch, navigate-back, SameSearch,
}
use fish_term.Terminal.Search.Selected.{IsSearch}
use fish_term.Terminal.Search.Scrolled.{at_row, IsScroll, IsScrolled, sync-IsScrolled}

-- Five lines, the last two on display.
abbrev bar : Scrollbar
bar = record { total = 5; len = 2; offset = 3 }

abbrev lines : List Bytes
lines = (b'a' ∷ b'b' ∷ b'A' ∷ b'B' ∷ []) ∷ (b'x' ∷ []) ∷ (b'b' ∷ []) ∷ [] ∷ (b'a' ∷ b'B' ∷ []) ∷ []

abbrev query : Bytes
query = b'A' ∷ b'b' ∷ []

abbrev started : Search
started = record no_search { active = true; query = query }

abbrev match : ℕ → ℕ → SearchMatch
match row p = record { row = row; start_byte = p; end_byte = p + 2 }

abbrev matched : Search
matched = record {
  active = true;
  query = query;
  matches = match 0 0 ∷ match 0 2 ∷ match 4 0 ∷ [];
  viewport_top_row = 3;
  selected = pos 2;
}

run_rebuild : rebuild 2 bar lines started ≡ matched
unfolding rebuild ascii_lower to_lower all_matches line_matches find find_here is_prefix
    first_visible viewport_top
run_rebuild = refl

-- libghostty-vt, for a viewport inside the rows.
abbrev scrolled : Scroll → Scrollbar → Scrollbar
scrolled to_top b = at_row b 0
scrolled to_bottom b = at_row b (b.total - b.len)
scrolled (by d) b =
    at_row b (pos_part (min_ℤ (max_ℤ (pos 0) (pos b.offset +ℤ d)) (pos (b.total - b.len))))

scrolled-IsScroll : IsScroll scrolled
scrolled-IsScroll = record { top_law = λ b inside. refl; delta_law = λ b d inside. refl }

-- A scroll that does nothing.
abbrev stuck : Scroll → Scrollbar → Scrollbar
stuck s b = b

abbrev above : Scrollbar
above = record bar { offset = 2 }

-- The next match is around the end, out of sight: the display moves up to it.
run_navigate :
    navigate scrolled 2 bar true matched
    ≡ (record matched { selected = pos 0; viewport_top_row = 0 }, at_row bar 0)
unfolding navigate next_selected sync selected_match scroll_to find_step times viewport_top
    target_top ◌+ℤ◌ ◌-ℤ◌
run_navigate = refl

-- From a viewport above the bottom it stops a row too low, and the match on row 0 is out of sight.
run_above :
    navigate scrolled 2 above true matched
    ≡ (record matched { selected = pos 0; viewport_top_row = 0 }, at_row bar 1)
unfolding navigate next_selected sync selected_match scroll_to find_step times viewport_top
    target_top ◌+ℤ◌ ◌-ℤ◌
run_above = refl

run_end : end_search matched ≡ record no_search { viewport_top_row = 3 }
unfolding end_search
run_end = refl

rebuild-all_occurrences_example :
    (rebuild 2 bar lines started).matches ≡ all_occurrences 0 lines (ascii_lower query)
rebuild-all_occurrences_example = rebuild-all_occurrences 2 bar lines started refl cc

abbrev calls : List SearchCall
calls =
    start scrolled 2 bar lines query
    ∷ turn scrolled 2 bar true
    ∷ end
    ∷ turn scrolled 2 bar false
    ∷ []

search_run-IsSearch_example : IsSearch (search_run calls no_search)
search_run-IsSearch_example = search_run-IsSearch calls

navigate-back_example :
    SameSearch matched (navigate stuck 2 above false (navigate scrolled 2 bar true matched).0).0
navigate-back_example = navigate-back scrolled stuck 2 2 bar above true matched (omega arith)

sync-IsScrolled_example :
    IsScrolled 2 above (match 0 0) (sync scrolled 2 above (record matched { selected = pos 0 }))
unfolding selected_match
sync-IsScrolled_example =
    sync-IsScrolled scrolled 2 above (match 0 0) (record matched { selected = pos 0 })
      scrolled-IsScroll (omega arith) refl refl (omega arith)
