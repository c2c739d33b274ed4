-- ===== src/Terminal/Search/Selected.antt =====
-- The selected match: it is always one of the matches.
use native.Mathlib.Nat.{mod-eq_of_lt, mod_self, add-mod_right}
use fish_term.Prelude.{
  ℕ, zero, suc, ◌+◌, ◌-◌, ◌≤◌, ◌<◌, ◌%◌, ◌≡◌, refl, ◌∙◌, ap, Bool, true, false, not, ◌||◌, ◌||◌,
  List, [], ◌∷◌, length, ℤ, pos, negsuc, Bool-cases, inl, inr, if◌then◌else◌, arith, ◌==◌,
}
use fish_term.Terminal.Viewport.{Scrollbar, viewport_top, viewport_rows}
use fish_term.Terminal.Search.{
  Bytes, SearchMatch, Search, first_visible, selection_of, is_empty, rebuild, next_selected,
  all_matches, ascii_lower,
}

-- -1 without a match, else the index of one.
abbrev pub IsSelection : ℕ → ℤ → Type 0
IsSelection n (pos i) = i < n
IsSelection n (negsuc i) = (i ≡ 0) × (n ≡ 0)

abbrev pub IsSearch : Search → Type 0
IsSearch s = IsSelection (length s.matches) s.selected

-- The index behind `i` and the one before it, around the end.
abbrev pub after : ℕ → ℕ → ℕ
after n i = if i + 1 == n then 0 else i + 1

next_index : (n i : ℕ) → i < n → (i + 1) % n ≡ after n i
next_index n i h = elim (Bool-cases (i + 1 == n)) [
  | inl e ↦ rw e (ap (◌% n) (ground arith) ∙ mod_self n)
  | inr e ↦ rw e (mod-eq_of_lt (ground arith))
]

abbrev pub before : ℕ → ℕ → ℕ
before n i = if i == 0 then n - 1 else i - 1

previous_index : (n i : ℕ) → i < n → (i + n - 1) % n ≡ before n i
previous_index n zero h = mod-eq_of_lt (omega arith) ∙ omega arith
previous_index n (suc i) h =
    ap (◌% n) (omega arith) ∙ add-mod_right i n ∙ mod-eq_of_lt (omega arith) ∙ ground arith

first_visible-bound :
    (top rows i n : ℕ) (ms : List SearchMatch)
    → i + length ms ≤ n
    → 0 < n
    → first_visible top rows i ms < n
unfolding first_visible
first_visible-bound top rows i n [] h p = p
first_visible-bound top rows i n (m ∷ ms) h p =
    let later = first_visible-bound top rows (i + 1) n ms (omega arith) p in ground arith

selection_of-IsSelection :
    (top rows : ℕ) (ms : List SearchMatch) → IsSelection (length ms) (selection_of top rows ms)
selection_of-IsSelection top rows [] = (refl, refl)
selection_of-IsSelection top rows (m ∷ ms) =
    first_visible-bound top rows 0 (length (m ∷ ms)) (m ∷ ms) (omega arith) (omega arith)

pub rebuild-IsSearch :
    (rows : ℕ) (bar : Scrollbar) (snapshot : List Bytes) (s : Search)
    → IsSearch (rebuild rows bar snapshot s)
unfolding rebuild
rebuild-IsSearch rows bar snapshot s = elim (Bool-cases (not s.active || is_empty s.query)) [
  | inl e ↦ rw e (refl, refl)
  | inr e ↦ rw e (
      selection_of-IsSelection (viewport_top rows bar) (viewport_rows rows bar)
        (all_matches 0 snapshot (ascii_lower s.query)))
]

pub next_selected-IsSelection :
    (next : Bool) (n : ℕ) (i : ℤ) → IsSelection n i → 0 < n → IsSelection n (next_selected next n i)
unfolding next_selected
next_selected-IsSelection true n (negsuc i) h p = p
next_selected-IsSelection false n (negsuc i) h p = omega arith
next_selected-IsSelection true n (pos i) h p = rw (next_index n i h) (ground arith)
next_selected-IsSelection false n (pos i) h p = rw (previous_index n i h) (ground arith)

pub next_selected-undo :
    (next : Bool) (n : ℕ) (i : ℤ)
    → IsSelection n i
    → 0 < n
    → next_selected (not next) n (next_selected next n i) ≡ i
unfolding next_selected
next_selected-undo next n (negsuc i) h p = absurd (omega arith)
next_selected-undo true n (pos i) h p =
    rw (next_index n i h) (ap pos (previous_index n (after n i) (ground arith) ∙ ground arith))
next_selected-undo false n (pos i) h p =
    rw (previous_index n i h) (ap pos (next_index n (before n i) (ground arith) ∙ ground arith))
