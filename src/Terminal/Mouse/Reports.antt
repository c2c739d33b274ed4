-- ===== src/Terminal/Mouse/Reports.antt =====
-- An application's reader of mouse reports, and that it reads what the terminal sends.
use mathlib.Core.List.{append_assoc}
use fish_term.Prelude.{
  ℕ, zero, suc, ◌+◌, ◌-◌, ◌%◌, ◌≤◌, ◌<◌, ◌≡◌, refl, Bool, true, false, ◌&&◌, List, [], ◌∷◌, ◌++◌,
  Option, none, some, ◌>>=◌, ℤ, pos, negsuc, ltb_ℤ, ◌≤ℤ◌, ◌≢◌, ◌==◌, if◌then◌else◌, Bytes, codes,
  read_decimal, read_decimal-decimal, arith, replicate,
}
use fish_term.Terminal.Mouse.{
  Modes, has_tracking, clamp_cell, sgr_report, x10_report, repeat, abs, sent, wheel_scroll,
  report_mouse,
}

pub record Report : Type 0 where
  pub button : ℕ
  pub col : ℕ
  pub row : ℕ
  pub pressed : Bool

-- The end of a report: `M` for a press and `m` for a release.
read_end : ℕ → ℕ → ℕ × Bytes → Option (Report × Bytes)
read_end button col (row, []) = none
read_end button col (row, b ∷ rest) =
    if b == b'M'
    then some (record { button = button; col = col; row = row; pressed = true }, rest)
    else if b == b'm'
    then some (record { button = button; col = col; row = row; pressed = false }, rest)
    else none

read_row : ℕ → ℕ × Bytes → Option (Report × Bytes)
unfolding read_end
read_row button (col, []) = none
read_row button (col, b ∷ rest) =
    if b == b';' then read_end button col (read_decimal 0 rest) else none

read_col : ℕ × Bytes → Option (Report × Bytes)
unfolding read_row
read_col (button, []) = none
read_col (button, b ∷ rest) = if b == b';' then read_row button (read_decimal 0 rest) else none

-- A report in the SGR encoding from the front of a text.
unfoldable pub read_sgr : Bytes → Option (Report × Bytes)
unfolding read_col
read_sgr (a ∷ b ∷ c ∷ rest) =
    if a == 27 && b == b'[' && c == b'<' then read_col (read_decimal 0 rest) else none
read_sgr bs = none

-- `n` reports and nothing behind them.
unfoldable pub read_many : ℕ → Bytes → Option (List Report)
read_many zero [] = some []
read_many zero (b ∷ bs) = none
read_many (suc n) bs = read_sgr bs >>= λ (r, rest). read_many n rest >>= λ rs. some (r ∷ rs)

abbrev pub report : ℕ → ℕ → ℕ → Bool → Report
report button col row pressed = record { button = button; col = col; row = row; pressed = pressed }

read_sgr-sgr_report :
    (button col row : ℕ) (pressed : Bool) (rest : Bytes)
    → read_sgr (sgr_report button col row pressed ++ rest)
      ≡ some (report button col row pressed, rest)
unfolding read_sgr sgr_report
read_sgr-sgr_report button col row true rest = simp (append_assoc, read_decimal-decimal)
read_sgr-sgr_report button col row false rest = simp (append_assoc, read_decimal-decimal)

read_many-repeat :
    (n button col row : ℕ) (pressed : Bool)
    → read_many n (repeat n (sgr_report button col row pressed))
      ≡ some (replicate n (report button col row pressed))
unfolding read_many repeat
read_many-repeat zero button col row pressed = refl
read_many-repeat (suc n) button col row pressed =
    rw (read_sgr-sgr_report button col row pressed (repeat n (sgr_report button col row pressed)))
      (rw (read_many-repeat n button col row pressed) refl)

abs_test : (v : ℤ) → v ≢ pos 0 → (abs v == 0) ≡ false
abs_test (pos zero) h = absurd (h refl)
abs_test (pos (suc n)) h = ground arith
abs_test (negsuc n) h = ground arith

-- On the alternate screen, with mouse tracking and the SGR encoding, a turn of the wheel by any
-- number of lines but 0 sends bytes that read as one report for each line: button 65 down and 64 up,
-- at the place of the pointer held inside the display.
pub wheel_scroll-read_many :
    (m : Modes) (cols rows : ℕ) (lines col row : ℤ)
    → lines ≢ pos 0
    → m.alt_screen ≡ true
    → has_tracking m ≡ true
    → m.sgr_mouse ≡ true
    → (s : Bytes) × (wheel_scroll m cols rows lines col row ≡ sent s)
      × (read_many (abs lines) s
          ≡ some (
              replicate (abs lines) (
                report
                  (if ltb_ℤ (pos 0) lines then 65 else 64)
                  (clamp_cell col cols)
                  (clamp_cell row rows)
                  true)))
unfolding wheel_scroll
wheel_scroll-read_many m cols rows lines col row turned alt tracking sgr =
    let count = abs_test lines turned in
    (
      repeat (abs lines) (
          sgr_report (if ltb_ℤ (pos 0) lines then 65 else 64) (clamp_cell col cols)
            (clamp_cell row rows) true),
      rw count (rw alt (rw tracking (rw sgr refl))),
      read_many-repeat (abs lines) (if ltb_ℤ (pos 0) lines then 65 else 64) (clamp_cell col cols)
          (clamp_cell row rows) true,
    )

-- With the SGR encoding, a mouse event on the alternate screen with mouse tracking is sent, and reads
-- as the same button at the place of the pointer held inside the display, pressed or released.
pub report_mouse-read_sgr :
    (m : Modes) (cols rows : ℕ) (col row : ℤ) (button : ℕ) (pressed : Bool)
    → m.alt_screen ≡ true
    → has_tracking m ≡ true
    → m.sgr_mouse ≡ true
    → (s : Bytes) × (report_mouse m cols rows col row button pressed ≡ some s)
      × ((rest : Bytes)
          → read_sgr (s ++ rest)
            ≡ some (report button (clamp_cell col cols) (clamp_cell row rows) pressed, rest))
unfolding report_mouse
report_mouse-read_sgr m cols rows col row button pressed alt tracking sgr = (
  sgr_report button (clamp_cell col cols) (clamp_cell row rows) pressed,
  rw alt (rw tracking (rw sgr refl)),
  read_sgr-sgr_report button (clamp_cell col cols) (clamp_cell row rows) pressed,
)

-- The place held inside the display: from 1 to the size, and the given place where it lies there.
pub clamp_cell_bounds :
    (v : ℤ) (size : ℕ)
    → 0 < size
    → (0 < clamp_cell v size)
      × (clamp_cell v size ≤ size)
      × (pos 1 ≤ℤ v → v ≤ℤ pos size → pos (clamp_cell v size) ≡ v)
unfolding clamp_cell
clamp_cell_bounds v size p = (ground arith, ground arith, λ low high. ground arith)

-- The classic encoding of a place: its bytes are 32 more than the place only up to 223.
pub x10_report_wraps :
    (button col row : ℕ)
    → 223 < col
    → col < 256
    → x10_report button col row
      ≡ 27 ∷ codes "[M" ++ ((button + 32) % 256) ∷ (col - 224) ∷ ((row + 32) % 256) ∷ []
unfolding x10_report
x10_report_wraps button col row low high = ground arith
