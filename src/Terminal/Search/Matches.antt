-- ===== src/Terminal/Search/Matches.antt =====
-- The matches that the search finds are exactly the occurrences of the query, in order.
use native.Mathlib.Numerals.{add-one}
use fish_term.Prelude.{
  ℕ, zero, suc, ◌+◌, ◌≤◌, ◌<◌, ◌≡◌, ◌≢◌, refl, ap, Bool, true, false, not, ◌||◌, List, [], ◌∷◌,
  ◌++◌, map, length, drop, Bool-cases, inl, inr, negsuc, if◌then◌else◌, arith,
}
use fish_term.Terminal.Viewport.{Scrollbar, viewport_top, viewport_rows}
use fish_term.Terminal.Search.{
  to_lower, is_empty, selection_of, Bytes, SearchMatch, Search, ascii_lower, is_prefix, find_here,
  find, line_matches, all_matches, rebuild,
}

-- `from`, `from + 1`, … , `n` numbers.
abbrev pub range_from : ℕ → ℕ → List ℕ
range_from from zero = []
range_from from (suc n) = from ∷ range_from (from + 1) n

abbrev pub keep : (ℕ → Bool) → List ℕ → List ℕ
keep p [] = []
keep p (x ∷ xs) = if p x then x ∷ keep p xs else keep p xs

-- The places of a text where the query stands, from left to right.
abbrev pub occurrences : Bytes → Bytes → List ℕ
occurrences text query = keep (λ p. is_prefix query (drop p text)) (range_from 0 (length text))

abbrev pub match_at : ℕ → Bytes → ℕ → SearchMatch
match_at row query p = record { row = row; start_byte = p; end_byte = p + length query }

-- The occurrences in all lines, counted from row `row`, upper and lower case alike.
abbrev pub all_occurrences : ℕ → List Bytes → Bytes → List SearchMatch
all_occurrences row [] query = []
all_occurrences row (line ∷ lines) query =
    map (match_at row query) (occurrences (ascii_lower line) query)
    ++ all_occurrences (row + 1) lines query

drop-next : (i c : ℕ) (text rest : Bytes) → drop i text ≡ c ∷ rest → drop (i + 1) text ≡ rest
drop-next i c text rest e = rw add-one (go i text e)
  where
    go : (i : ℕ) (text : Bytes) → drop i text ≡ c ∷ rest → drop (suc i) text ≡ rest
    go zero [] e = cc
    go zero (x ∷ xs) e = ground arith
    go (suc i) [] e = cc
    go (suc i) (x ∷ xs) e = go i xs e

drop-inside : (i c : ℕ) (text rest : Bytes) → drop i text ≡ c ∷ rest → i + 1 ≤ length text
drop-inside zero c [] rest e = cc
drop-inside zero c (x ∷ xs) rest e = omega arith
drop-inside (suc i) c [] rest e = cc
drop-inside (suc i) c (x ∷ xs) rest e = (let below = drop-inside i c xs rest e in omega arith)

find_next :
    (i c : ℕ) (text query rest : Bytes)
    → drop i text ≡ c ∷ rest
    → find text query (i + 1) ≡ find_here query (i + 1) rest
unfolding find
find_next i c text query rest e =
    let below = drop-inside i c text rest e in let next = drop-next i c text rest e in ground arith

is_prefix-nil : (q : ℕ) (query : Bytes) → is_prefix (q ∷ query) [] ≡ false
unfolding is_prefix
is_prefix-nil q query = refl

-- From any place on, with fuel for what is left of the text.
line_matches_from :
    (row : ℕ) (text : Bytes) (q : ℕ) (query rest : Bytes) (fuel i : ℕ)
    → drop i text ≡ rest
    → length rest < fuel
    → line_matches fuel row text (q ∷ query) (find_here (q ∷ query) i rest)
      ≡ map
          (match_at row (q ∷ query))
          (keep (λ p. is_prefix (q ∷ query) (drop p text)) (range_from i (length rest)))
unfolding find_here line_matches
line_matches_from row text q query rest zero i e h = absurd (omega arith)
line_matches_from row text q query [] (suc fuel) i e h = rw (is_prefix-nil q query) refl
line_matches_from row text q query (c ∷ rest) (suc fuel) i e h =
    elim (Bool-cases (is_prefix (q ∷ query) (c ∷ rest))) [
      | inl here ↦ rw here (
          rw e (
            rw here (
              rw (find_next i c text (q ∷ query) rest e) (
                ap (match_at row (q ∷ query) i ∷◌) (
                  line_matches_from row text q query rest fuel (i + 1) (drop-next i c text rest e)
                    (omega arith))))))
      | inr past ↦ rw past (
          rw e (
            rw past (
              line_matches_from row text q query rest (suc fuel) (i + 1) (drop-next i c text rest e)
                (omega arith))))
    ]

find_start : (text query : Bytes) → find text query 0 ≡ find_here query 0 text
unfolding find
find_start text query = ground arith

line_matches_all :
    (row : ℕ) (text : Bytes) (q : ℕ) (query : Bytes)
    → line_matches (length text + 1) row text (q ∷ query) (find text (q ∷ query) 0)
      ≡ map (match_at row (q ∷ query)) (occurrences text (q ∷ query))
line_matches_all row text q query =
    rw (find_start text (q ∷ query))
      (line_matches_from row text q query text (length text + 1) 0 refl (omega arith))

-- All lines from row `row` on.
all_matches-all_occurrences :
    (row : ℕ) (lines : List Bytes) (q : ℕ) (query : Bytes)
    → all_matches row lines (q ∷ query) ≡ all_occurrences row lines (q ∷ query)
unfolding all_matches
all_matches-all_occurrences row [] q query = refl
all_matches-all_occurrences row (line ∷ lines) q query =
    rw (all_matches-all_occurrences (row + 1) lines q query) (
      ap (◌++ all_occurrences (row + 1) lines (q ∷ query))
        (line_matches_all row (ascii_lower line) q query))

-- An active search for a query that is not empty finds exactly the occurrences of the query in the
-- lines of the scrollback, upper and lower case alike, line by line and from left to right.
pub rebuild-all_occurrences :
    (rows : ℕ) (bar : Scrollbar) (snapshot : List Bytes) (s : Search)
    → s.active ≡ true
    → s.query ≢ []
    → (rebuild rows bar snapshot s).matches ≡ all_occurrences 0 snapshot (ascii_lower s.query)
unfolding rebuild ascii_lower
rebuild-all_occurrences rows bar snapshot s active filled = go s.active s.query active filled
  where
    go :
        (active : Bool) (query : Bytes)
        → active ≡ true
        → query ≢ []
        → (if not active || is_empty query
            then record s {
              matches = [];
              selected = negsuc 0;
              viewport_top_row = viewport_top rows bar;
            }
            else (let found = all_matches 0 snapshot (ascii_lower query) in
                record s {
                  matches = found;
                  viewport_top_row = viewport_top rows bar;
                  selected = selection_of (viewport_top rows bar) (viewport_rows rows bar) found;
                })).matches
          ≡ all_occurrences 0 snapshot (ascii_lower query)
    go false query e filled = cc
    go true [] e filled = absurd (filled refl)
    go true (q ∷ query) e filled =
        all_matches-all_occurrences 0 snapshot (to_lower q) (map to_lower query)
