-- ===== src/Terminal/Frame/Marks.antt =====
-- The text of the cells that the selection's loop marks.
use fish_term.Prelude.{
  ℕ, zero, suc, ◌-◌, ◌≡◌, refl, sym, ap, ◌∙◌, Bool, true, false, ◌&&◌, inl, inr, List, [], ◌∷◌,
  ◌++◌, take, drop, Option-cases, get_elem?, ltb, ◌==◌, if◌then◌else◌, Bytes, arith,
}
use fish_term.Screen.Cell.{Cell}
use fish_term.Terminal.Cells.{Wide, narrow, wide, spacer_tail, spacer_head, VtCell, is_spacer}
use fish_term.Terminal.Selection.{cell_text, cells_text}
use fish_term.Terminal.Frame.{cell_width, select_cell, select_at, select_wide, select_from}

-- The text of the cells that the frame shows as selected.
abbrev pub selected_text : List VtCell → List Cell → Bytes
selected_text [] frame = []
selected_text (c ∷ cs) [] = []
selected_text (c ∷ cs) (f ∷ frame) =
    (if f.selected then cell_text c else []) ++ selected_text cs frame

-- A frame's row for some cells. Its first cell is selected if `head` says so, and is then that of a
-- spacer; the others are not.
abbrev pub Stands : Bool → List VtCell → List Cell → Type 0
Stands head [] frame = Unit
Stands head (c ∷ cs) [] = ⊥
Stands head (c ∷ cs) (f ∷ frame) =
    (f.selected ≡ head)
    × (head ≡ true → is_spacer c.width ≡ true)
    × (f.width ≡ cell_width c.width)
    × Stands false cs frame

-- A wide cell has a spacer behind it.
abbrev pub AreWide : List VtCell → Type 0
AreWide [] = Unit
AreWide (c ∷ []) = Unit
AreWide (c ∷ d ∷ cs) = (c.width ≡ wide → is_spacer d.width ≡ true) × AreWide (d ∷ cs)

tail-AreWide : (c : VtCell) (cs : List VtCell) → AreWide (c ∷ cs) → AreWide cs
tail-AreWide c [] a = tt
tail-AreWide c (d ∷ cs) a = a.1

is_wide : (w : Wide) → (cell_width w == 2) ≡ true → w ≡ wide
is_wide narrow e = cc
is_wide wide e = refl
is_wide spacer_tail e = cc
is_wide spacer_head e = cc

-- A frame with at most a spacer selected shows no text as selected.
pub selected_text-none :
    (head : Bool) (cs : List VtCell) (frame : List Cell)
    → Stands head cs frame
    → selected_text cs frame ≡ []
unfolding cell_text
selected_text-none head [] frame s = refl
selected_text-none head (c ∷ cs) [] s = absurd s
selected_text-none true (c ∷ cs) (f ∷ frame) (on, spacer, width, rest) =
    rw (on, spacer refl) (selected_text-none false cs frame rest)
selected_text-none false (c ∷ cs) (f ∷ frame) (off, spacer, width, rest) =
    rw off (selected_text-none false cs frame rest)

-- Behind the first cell the loop does what it does on the other cells.
select_wide-shift :
    (bg fg cols i : ℕ) (f : Cell) (frame : List Cell)
    → select_wide bg fg cols (suc i) (f ∷ frame) ≡ f ∷ select_wide bg fg (cols - 1) i frame
select_wide-shift bg fg cols i f frame = elim (Option-cases (get_elem? frame i)) [
  | inl gone ↦ rw (gone, select_wide) refl
  | inr (cell, e) ↦
      rw (e, select_wide)
        (let test : ltb (suc (suc i)) cols ≡ ltb (suc i) (cols - 1) = ground arith in
          rw test (go (cell.width == 2 && ltb (suc i) (cols - 1))))
]
  where
    go :
        (b : Bool)
        → (if b
            then f ∷ select_at bg fg (suc i) (select_at bg fg i frame)
            else f ∷ select_at bg fg i frame)
          ≡ f
            ∷ (if b
                then select_at bg fg (suc i) (select_at bg fg i frame)
                else select_at bg fg i frame)
    go true = refl
    go false = refl

select_from-shift :
    (bg fg n i cols : ℕ) (f : Cell) (frame : List Cell)
    → select_from bg fg n (suc i) cols (f ∷ frame) ≡ f ∷ select_from bg fg n i (cols - 1) frame
unfolding select_from
select_from-shift bg fg zero i cols f frame = refl
select_from-shift bg fg (suc n) i cols f frame =
    ap (select_from bg fg n (suc (suc i)) cols) (select_wide-shift bg fg cols i f frame)
    ∙ select_from-shift bg fg n (suc i) cols f (select_wide bg fg (cols - 1) i frame)

-- The frame behind a cell that the loop has selected.
select_head-Stands :
    (bg fg : ℕ) (c : VtCell) (cs : List VtCell) (frame : List Cell)
    → AreWide (c ∷ cs)
    → c.width ≡ wide
    → Stands false cs frame
    → Stands true cs (select_at bg fg 0 frame)
select_head-Stands bg fg c [] frame a w s = tt
select_head-Stands bg fg c (d ∷ cs) [] a w s = absurd s
select_head-Stands bg fg c (d ∷ cs) (f ∷ frame) a w (off, spacer, width, rest) =
    (refl, λ e. a.0 w, width, rest)

-- The loop from the first cell on selects the text of the first cells.
select_from-first :
    (bg fg n cols : ℕ) (head : Bool) (cs : List VtCell) (frame : List Cell)
    → AreWide cs
    → Stands head cs frame
    → selected_text cs (select_from bg fg n 0 cols frame) ≡ cells_text (take n cs)
unfolding select_from cells_text
select_from-first bg fg zero cols head cs frame a s = selected_text-none head cs frame s
select_from-first bg fg (suc n) cols head [] frame a s = refl
select_from-first bg fg (suc n) cols head (c ∷ cs) [] a s = absurd s
select_from-first bg fg (suc n) cols head (c ∷ cs) (f ∷ frame) a (on, spacer, width, rest) =
    go (f.width == 2 && ltb 1 cols) refl
      (λ head next s. select_from-first bg fg n (cols - 1) head cs next (tail-AreWide c cs a) s)
  where
    go :
        (b : Bool)
        → f.width == 2 && ltb 1 cols ≡ b
        → ((head : Bool) (next : List Cell)
            → Stands head cs next
            → selected_text cs (select_from bg fg n 0 (cols - 1) next) ≡ cells_text (take n cs))
        → selected_text (c ∷ cs) (
            select_from bg fg n 1 cols (
              if b
              then select_cell bg fg f ∷ select_at bg fg 0 frame
              else select_cell bg fg f ∷ frame))
          ≡ cell_text c ++ cells_text (take n cs)
    go true h others =
        let double : (cell_width c.width == 2) ≡ true =
          ap (λ w. w == 2) (sym width) ∙ ground arith in
        ap (selected_text (c ∷ cs))
          (select_from-shift bg fg n 0 cols (select_cell bg fg f) (select_at bg fg 0 frame))
        ∙ ap (λ t. cell_text c ++ t)
            (others true (select_at bg fg 0 frame)
              (select_head-Stands bg fg c cs frame a (is_wide c.width double) rest))
    go false h others =
        ap (selected_text (c ∷ cs)) (select_from-shift bg fg n 0 cols (select_cell bg fg f) frame)
        ∙ ap (λ t. cell_text c ++ t) (others false frame rest)

nat_sub_zero : (n : ℕ) → n - 0 ≡ n
nat_sub_zero n = omega arith

zero_sub : (i : ℕ) → 0 ≡ 0 - suc i
zero_sub i = omega arith

suc_sub : (n i : ℕ) → n - i ≡ suc n - suc i
suc_sub n i = omega arith

take_of_nil {ℓ} : {A : Type ℓ} (n : ℕ) → [] ≡ take {A = A} n []
take_of_nil zero = refl
take_of_nil (suc n) = refl

pub drop-take {ℓ} :
    {A : Type ℓ} (i n : ℕ) (xs : List A) → drop i (take n xs) ≡ take (n - i) (drop i xs)
drop-take zero n xs = ap (λ k. take k xs) (sym (nat_sub_zero n))
drop-take (suc i) zero xs = ap (λ k. take k (drop (suc i) xs)) (zero_sub i)
drop-take (suc i) (suc n) [] = take_of_nil (suc n - suc i)
drop-take (suc i) (suc n) (x ∷ xs) = drop-take i n xs ∙ ap (λ k. take k (drop i xs)) (suc_sub n i)

-- The loop from any cell on selects the text of as many cells.
pub select_from-text :
    (bg fg n i cols : ℕ) (cs : List VtCell) (frame : List Cell)
    → AreWide cs
    → Stands false cs frame
    → selected_text cs (select_from bg fg n i cols frame) ≡ cells_text (take n (drop i cs))
unfolding cells_text
select_from-text bg fg n zero cols cs frame a s = select_from-first bg fg n cols false cs frame a s
select_from-text bg fg n (suc i) cols [] frame a s = ap cells_text (take_of_nil n)
select_from-text bg fg n (suc i) cols (c ∷ cs) [] a s = absurd s
select_from-text bg fg n (suc i) cols (c ∷ cs) (f ∷ frame) a (off, spacer, width, rest) =
    ap (selected_text (c ∷ cs)) (select_from-shift bg fg n i cols f frame)
    ∙ unselected
    ∙ select_from-text bg fg n i (cols - 1) cs frame (tail-AreWide c cs a) rest
  where
    unselected :
        selected_text (c ∷ cs) (f ∷ select_from bg fg n i (cols - 1) frame)
        ≡ selected_text cs (select_from bg fg n i (cols - 1) frame)
    unselected = rw off refl
