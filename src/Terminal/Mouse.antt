-- ===== src/Terminal/Mouse.antt =====
-- The mouse reports of the class `Terminal`: `wheelScroll` and `reportMouse`. What libghostty-vt
-- holds, the active screen and the modes of the terminal, is an argument.
pub mod Reports
use fish_term.Prelude.{
  ℕ, zero, suc, ◌+◌, ◌-◌, ◌%◌, Bool, true, false, ◌&&◌, ◌||◌, not, List, [], ◌∷◌, ◌++◌, Option,
  none, some, ℤ, pos, negsuc, pos_part, neg_part, ltb_ℤ, leb, ltb, ◌==◌, if◌then◌else◌, Bytes,
  codes, decimal,
}

-- What the methods ask libghostty-vt for: `GHOSTTY_TERMINAL_DATA_ACTIVE_SCREEN`, the DEC private
-- modes 1 (`kGhosttyModeDecckm`), 1000, 1002, 1003 and 1006, and
-- `GHOSTTY_TERMINAL_DATA_MOUSE_TRACKING`.
pub record Modes : Type 0 where
  pub alt_screen : Bool
  pub app_cursor_keys : Bool
  pub mouse_tracking : Bool
  pub mode_1000 : Bool
  pub mode_1002 : Bool
  pub mode_1003 : Bool
  pub sgr_mouse : Bool

-- `anyMouseTracking`, `hasTracking`
unfoldable pub has_tracking : Modes → Bool
has_tracking m = m.mouse_tracking || (m.mode_1000 || m.mode_1002 || m.mode_1003)

-- A coordinate from 1 to the size: `if (col < 1) col = 1; if (col > m_cols) col = m_cols;`. The
-- result is not negative.
unfoldable pub clamp_cell : ℤ → ℕ → ℕ
clamp_cell v size =
    let low = if ltb_ℤ v (pos 1) then pos 1 else v in
    if ltb_ℤ (pos size) low then size else pos_part low

-- `\x1b[<BTN;COL;ROWM`, or with `m` for a release. The numbers of a report fit its buffer.
unfoldable pub sgr_report : ℕ → ℕ → ℕ → Bool → Bytes
sgr_report button col row pressed =
    27 ∷ codes "[<"
    ++ (decimal button
        ++ (b';'
            ∷ (decimal col ++ (b';' ∷ (decimal row ++ (if pressed then b'M' else b'm') ∷ [])))))

-- `\x1b[M` and three bytes; a cast to `char` keeps 8 bits.
unfoldable pub x10_report : ℕ → ℕ → ℕ → Bytes
x10_report button col row =
    27 ∷ codes "[M" ++ ((button + 32) % 256) ∷ ((col + 32) % 256) ∷ ((row + 32) % 256) ∷ []

-- `for (int i = 0; i < count; ++i) out += seq;`
unfoldable pub repeat : ℕ → Bytes → Bytes
repeat zero seq = []
repeat (suc n) seq = seq ++ repeat n seq

-- `std::abs`
abbrev pub abs : ℤ → ℕ
abs v = pos_part v + neg_part v

-- What a turn of the wheel does: nothing, scroll the view by some lines and draw, or send bytes.
pub data Wheel : Type 0 where
  ignored : Wheel
  scrolled : ℤ → Wheel
  sent : Bytes → Wheel

-- `wheelScroll`. The arguments from `cols` on are `m_cols`, `m_rows`, `lines`, `col` and `row`.
unfoldable pub wheel_scroll : Modes → ℕ → ℕ → ℤ → ℤ → ℤ → Wheel
unfolding has_tracking clamp_cell sgr_report x10_report repeat
wheel_scroll m cols rows lines col row =
    let c = clamp_cell col cols in
    let r = clamp_cell row rows in
    let down = ltb_ℤ (pos 0) lines in
    let button = if down then 65 else 64 in
    if abs lines == 0
    then ignored
    else if not m.alt_screen
    then scrolled lines
    else if has_tracking m
    then sent (
        repeat (abs lines)
          (if m.sgr_mouse then sgr_report button c r true else x10_report button c r))
    else sent (
        repeat (abs lines) (
          if down
          then 27 ∷ codes (if m.app_cursor_keys then "OB" else "[B")
          else 27 ∷ codes (if m.app_cursor_keys then "OA" else "[A")))

-- `reportMouse`: the bytes that it sends, or `none` where it returns false.
unfoldable pub report_mouse : Modes → ℕ → ℕ → ℤ → ℤ → ℕ → Bool → Option Bytes
unfolding has_tracking clamp_cell sgr_report x10_report
report_mouse m cols rows col row button pressed =
    let c = clamp_cell col cols in
    let r = clamp_cell row rows in
    if not m.alt_screen
    then none
    else if not (has_tracking m)
    then none
    else some (if m.sgr_mouse then sgr_report button c r pressed else x10_report button c r)
