-- ===== src/Terminal/Links/Found.antt =====
-- What `getLinkAt` finds on a row.
use mathlib.Core.List.{append_assoc}
use fish_term.Prelude.{
  ℕ, zero, suc, ◌+◌, ◌-◌, ◌≤◌, ◌<◌, ◌≡◌, refl, sym, ap, ◌∙◌, Bool, true, false, ◌||◌, not, ◌⊎◌, inl,
  inr, List, [], ◌∷◌, ◌++◌, some, get_elem?, length, take, drop, take-append-drop, ltb, leb, ◌==◌,
  if◌then◌else◌, ℤ, pos, pos_part, ltb_ℤ, leb_ℤ, Bool-cases, Bytes, arith,
}
use fish_term.Terminal.Cells.{VtCell}
use fish_term.Terminal.Selection.{View}
use fish_term.Terminal.Links.{
  is_url_delimiter, is_trailing, trim_url_token, has_supported_link_scheme, line_text, delimiter_at,
  link_start, link_end, link_around, get_link_at, col_offset,
}

-- No byte of a text is a delimiter.
abbrev pub IsUndelimited : Bytes → Type 0
IsUndelimited [] = Unit
IsUndelimited (b ∷ bs) = (is_url_delimiter b ≡ false) × IsUndelimited bs

abbrev pub ends_trailing : Bytes → Bool
ends_trailing [] = false
ends_trailing (b ∷ []) = is_trailing b
ends_trailing (b ∷ c ∷ cs) = ends_trailing (c ∷ cs)

-- A piece of a row's text that is a link.
abbrev pub IsLink : Bytes → Bytes → Type 0
IsLink text link =
    (has_supported_link_scheme link ≡ true)
    × IsUndelimited link
    × (ends_trailing link ≡ false)
    × ((before : Bytes) × (after : Bytes) × (text ≡ before ++ (link ++ after)))

abbrev Trimmed : Bytes → Bytes → Type 0
Trimmed token trimmed =
    (ends_trailing trimmed ≡ false) × ((rest : Bytes) × (token ≡ trimmed ++ rest))

trim_step :
    (b : ℕ) (bs trimmed : Bytes)
    → Trimmed bs trimmed
    → Trimmed
        (b ∷ bs)
        (elim trimmed [ [] ↦ if is_trailing b then [] else b ∷ [] | c ∷ cs ↦ b ∷ c ∷ cs ])
trim_step b bs [] (ends, (rest, e)) = elim (Bool-cases (is_trailing b)) [
  | inl popped ↦ rw (popped, if◌then◌else◌) (refl, (b ∷ bs, refl))
  | inr kept ↦ rw (kept, if◌then◌else◌) (kept, (bs, refl))
]
trim_step b bs (c ∷ cs) (ends, (rest, e)) = (ends, (rest, ap (λ t. b ∷ t) e))

trim_url_token-Trimmed : (token : Bytes) → Trimmed token (trim_url_token token)
unfolding trim_url_token
trim_url_token-Trimmed [] = (refl, ([], refl))
trim_url_token-Trimmed (b ∷ bs) = trim_step b bs (trim_url_token bs) (trim_url_token-Trimmed bs)

prefix-IsUndelimited : (s t : Bytes) → IsUndelimited (s ++ t) → IsUndelimited s
prefix-IsUndelimited [] t h = tt
prefix-IsUndelimited (b ∷ s) t h = (h.0, prefix-IsUndelimited s t h.1)

segment-IsUndelimited :
    (text : Bytes) (left n : ℕ)
    → ((i : ℕ) → left ≤ i → i < left + n → delimiter_at text i ≡ false)
    → IsUndelimited (take n (drop left text))
unfolding delimiter_at
segment-IsUndelimited text zero zero h = tt
segment-IsUndelimited [] zero (suc n) h = tt
segment-IsUndelimited [] (suc left) zero h = tt
segment-IsUndelimited [] (suc left) (suc n) h = tt
segment-IsUndelimited (b ∷ text) zero (suc n) h = (
  h 0 (omega arith) (omega arith),
  segment-IsUndelimited text 0 n (λ i low high. h (suc i) (omega arith) (omega arith)),
)
segment-IsUndelimited (b ∷ text) (suc left) n h =
    segment-IsUndelimited text left n (λ i low high. h (suc i) (omega arith) (omega arith))

link_start_lem :
    (text : Bytes) (start : ℕ)
    → (link_start text start ≤ start)
      × ((i : ℕ) → link_start text start ≤ i → i < start → delimiter_at text i ≡ false)
unfolding link_start
link_start_lem text zero = (omega arith, λ i low high. absurd (omega arith))
link_start_lem text (suc left) = elim (Bool-cases (delimiter_at text left)) [
  | inl stop ↦ rw (stop, link_start) (omega arith, λ i low high. absurd (omega arith))
  | inr more ↦
      rw (more, link_start)
        (let (low, inside) = link_start_lem text left in
          (
            omega arith,
            λ i from to. elim (Bool-cases (i == left)) [
              | inl here ↦ (let e : i ≡ left = ground arith in rw e more)
              | inr below ↦ inside i from (ground arith)
            ],
          ))
]

link_end_lem :
    (text : Bytes) (left right : ℕ)
    → (right ≤ link_end text left right)
      × ((i : ℕ) → right ≤ i → i < link_end text left right → delimiter_at text i ≡ false)
unfolding link_end
link_end_lem text zero right = (omega arith, λ i low high. absurd (omega arith))
link_end_lem text (suc left) right = elim (Bool-cases (delimiter_at text right)) [
  | inl stop ↦ rw (stop, link_end) (omega arith, λ i low high. absurd (omega arith))
  | inr more ↦
      rw (more, link_end)
        (let (high, inside) = link_end_lem text left (right + 1) in
          (
            omega arith,
            λ i from to. elim (Bool-cases (i == right)) [
              | inl here ↦ (let e : i ≡ right = ground arith in rw e more)
              | inr above ↦ inside i (ground arith) to
            ],
          ))
]

-- The bytes between the ends of the two loops.
around-IsUndelimited :
    (text : Bytes) (start : ℕ)
    → delimiter_at text start ≡ false
    → (let left = link_start text start in
        let right = link_end text (length text - start) start in
        IsUndelimited (take (right - left) (drop left text)))
around-IsUndelimited text start here =
    let (low, left) = link_start_lem text start in
    let (high, right) = link_end_lem text (length text - start) start in
    segment-IsUndelimited text (link_start text start)
      (link_end text (length text - start) start - link_start text start)
      (λ i from to. elim (Bool-cases (ltb i start)) [
        | inl before ↦ left i from (ground arith)
        | inr behind ↦ right i (ground arith) (omega arith)
      ])

trimmed-IsLink :
    (text : Bytes) (left n : ℕ)
    → IsUndelimited (take n (drop left text))
    → has_supported_link_scheme (trim_url_token (take n (drop left text))) ≡ true
    → IsLink text (trim_url_token (take n (drop left text)))
trimmed-IsLink text left n clean scheme =
    let token = take n (drop left text) in
    let (ends, (rest, e)) = trim_url_token-Trimmed token in
    let behind = drop n (drop left text) in
    let parts : drop left text ≡ trim_url_token token ++ (rest ++ behind) =
      sym (take-append-drop n (drop left text))
      ∙ (ap (λ t. t ++ behind) e ∙ append_assoc (trim_url_token token) rest behind) in
    (
      scheme,
      prefix-IsUndelimited (trim_url_token token) rest (rw e at clean),
      ends,
      (
        take left text,
        rest ++ behind,
        sym (take-append-drop left text) ∙ ap (λ t. take left text ++ t) parts,
      ),
    )

-- A token is kept only with a scheme.
kept-IsLink :
    (text token : Bytes)
    → (has_supported_link_scheme token ≡ true → IsLink text token)
    → ((if not (has_supported_link_scheme token) then [] else token) ≡ [])
      ⊎ IsLink text (if not (has_supported_link_scheme token) then [] else token)
kept-IsLink text token h = elim (Bool-cases (has_supported_link_scheme token)) [
  | inl scheme ↦ rw scheme (inr (h scheme))
  | inr other ↦ rw other (inl refl)
]

link_around-IsLink :
    (text : Bytes) (start : ℕ)
    → (link_around text start ≡ []) ⊎ IsLink text (link_around text start)
unfolding link_around
link_around-IsLink text start = elim (Bool-cases (leb (length text) start)) [
  | inl past ↦ rw past (inl refl)
  | inr within ↦ rw within (elim (Bool-cases (delimiter_at text start)) [
    | inl stop ↦ rw stop (inl refl)
    | inr here ↦ rw here (
        kept-IsLink text
          (trim_url_token (
            take (link_end text (length text - start) start - link_start text start)
              (drop (link_start text start) text)))
          (trimmed-IsLink text (link_start text start)
            (link_end text (length text - start) start - link_start text start)
            (around-IsUndelimited text start here)))
  ])
]

-- On a row with cells, `getLinkAt` gives nothing or a link: a piece of the row's text with a
-- supported scheme, without delimiters, that does not end with punctuation.
pub get_link_at-IsLink :
    (v : View) (row col : ℤ) (cells : List VtCell)
    → get_elem? v.grid (pos_part row) ≡ some cells
    → (get_link_at v row col ≡ []) ⊎ IsLink (line_text (take v.cols cells)) (get_link_at v row col)
unfolding get_link_at
get_link_at-IsLink v row col cells found =
    elim (Bool-cases (
      ltb_ℤ row (pos 0) || ltb_ℤ col (pos 0) || leb_ℤ (pos v.rows) row || leb_ℤ (pos v.cols) col)) [
        | inl outside ↦ rw outside (inl refl)
        | inr inside ↦ rw inside (
            rw found (
              link_around-IsLink (line_text (take v.cols cells))
                (col_offset (take v.cols cells) (pos_part col))))
      ]
