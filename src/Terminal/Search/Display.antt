-- ===== src/Terminal/Search/Display.antt =====
-- What a new search selects: the first match on display.
use native.Mathlib.Numerals.{add-one}
use fish_term.Prelude.{
  ℕ, zero, suc, ◌+◌, ◌≡◌, refl, sym, ◌∙◌, ap, Bool, true, false, not, ◌⊎◌, ◌||◌, List, [], ◌∷◌, pos,
  Bool-cases, inl, inr, take, pos_part, if◌then◌else◌, arith,
}
use fish_term.Terminal.Viewport.{Scrollbar, viewport_top, viewport_rows}
use fish_term.Terminal.Search.{
  Bytes, SearchMatch, Search, visible, first_visible, selection_of, is_empty, rebuild, all_matches,
  ascii_lower,
}

abbrev pub any_visible : ℕ → ℕ → List SearchMatch → Bool
any_visible top rows [] = false
any_visible top rows (m ∷ ms) = visible top rows m || any_visible top rows ms

-- The match of the index `k` is the first on display, or none is and `k` is 0.
abbrev pub IsChoice : ℕ → ℕ → List SearchMatch → ℕ → Type 0
IsChoice top rows ms k =
    ((any_visible top rows (take k ms) ≡ false) × (any_visible top rows (take (k + 1) ms) ≡ true))
    ⊎ ((any_visible top rows ms ≡ false) × (k ≡ 0))

or_rest : {a b c : Bool} → a ≡ false → a || b ≡ c → b ≡ c
or_rest {a = false} e h = h
or_rest {a = true} e h = cc

-- The index of the first match on display, where there is one.
place : ℕ → ℕ → List SearchMatch → ℕ
place top rows [] = zero
place top rows (m ∷ ms) =
    let later = place top rows ms in if visible top rows m then zero else suc later

first_visible-place :
    (top rows i : ℕ) (ms : List SearchMatch)
    → any_visible top rows ms ≡ true
    → first_visible top rows i ms ≡ i + place top rows ms
unfolding place first_visible
first_visible-place top rows i [] h = cc
first_visible-place top rows i (m ∷ ms) h = elim (Bool-cases (visible top rows m)) [
  | inl e ↦ rw e (omega arith)
  | inr e ↦ rw e (first_visible-place top rows (i + 1) ms (or_rest e h) ∙ omega arith)
]

place_first :
    (top rows : ℕ) (ms : List SearchMatch)
    → any_visible top rows ms ≡ true
    → (any_visible top rows (take (place top rows ms) ms) ≡ false)
      × (any_visible top rows (take (suc (place top rows ms)) ms) ≡ true)
unfolding place
place_first top rows [] h = cc
place_first top rows (m ∷ ms) h = elim (Bool-cases (visible top rows m)) [
  | inl e ↦ rw e (refl, refl)
  | inr e ↦
      (let (before, there) = place_first top rows ms (or_rest e h) in rw e (rw e (before, there)))
]

no_place :
    (top rows i : ℕ) (ms : List SearchMatch)
    → any_visible top rows ms ≡ false
    → first_visible top rows i ms ≡ 0
unfolding first_visible
no_place top rows i [] h = refl
no_place top rows i (m ∷ ms) h = elim (Bool-cases (visible top rows m)) [
  | inl e ↦ cc
  | inr e ↦ rw e (no_place top rows (i + 1) ms (or_rest e h))
]

pub first_visible-IsChoice :
    (top rows : ℕ) (ms : List SearchMatch) → IsChoice top rows ms (first_visible top rows 0 ms)
first_visible-IsChoice top rows ms = elim (Bool-cases (any_visible top rows ms)) [
  | inl e ↦
      (let same : first_visible top rows 0 ms ≡ place top rows ms =
          first_visible-place top rows 0 ms e ∙ omega arith in
        inl (rw same (rw add-one (place_first top rows ms e))))
  | inr e ↦ inr (e, no_place top rows 0 ms e)
]

selection_of-IsChoice :
    (top rows k : ℕ) (ms : List SearchMatch)
    → selection_of top rows ms ≡ pos k
    → IsChoice top rows ms k
selection_of-IsChoice top rows k [] h = cc
selection_of-IsChoice top rows k (m ∷ ms) h =
    let same : first_visible top rows 0 (m ∷ ms) ≡ k = ap pos_part h in
    rw (sym same) (first_visible-IsChoice top rows (m ∷ ms))

-- An index that a new search selects is that of the first match on display, or 0 where no match is
-- on display.
pub rebuild-IsChoice :
    (rows k : ℕ) (bar : Scrollbar) (snapshot : List Bytes) (s : Search)
    → (rebuild rows bar snapshot s).selected ≡ pos k
    → IsChoice
        (viewport_top rows bar)
        (viewport_rows rows bar)
        (rebuild rows bar snapshot s).matches
        k
unfolding rebuild
rebuild-IsChoice rows k bar snapshot s = elim (Bool-cases (not s.active || is_empty s.query)) [
  | inl e ↦ rw e (λ h. cc)
  | inr e ↦ rw e (
      selection_of-IsChoice (viewport_top rows bar) (viewport_rows rows bar) k
        (all_matches 0 snapshot (ascii_lower s.query)))
]
