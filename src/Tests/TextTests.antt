-- ===== src/Tests/TextTests.antt =====
-- Runs of the text of the display, and the theorem applied at it.
use fish_term.Prelude.{ℕ, ◌≡◌, refl, true, false, [], ◌∷◌, ◌++◌, ◌-ℤ◌, map, some, pos, codes}
use fish_term.Utf8.{utf8}
use fish_term.Terminal.Cells.{narrow, wide, spacer_tail, VtCell}
use fish_term.Terminal.Selection.{View}
use fish_term.Terminal.Text.{
  get_screen_line, get_screen_content, get_cursor_position, join_lines, rows_read,
}
use fish_term.Terminal.Text.Ends.{trim_end}
use fish_term.Terminal.Text.Trimmed.{is_filled, trimmed, get_screen_content-trimmed}

abbrev shown : ℕ → VtCell
shown c = record { codepoint = c; width = narrow; has_text = true }

abbrev unwritten : VtCell
unwritten = record { codepoint = 0; width = narrow; has_text = false }

-- `a b `, an empty row, a wide character with its tail, and another empty row.
abbrev screen : View
screen = record {
  cols = 4;
  rows = 4;
  top = 0;
  grid =
      (shown b'a' ∷ unwritten ∷ shown b'b' ∷ shown b' ' ∷ [])
      ∷ []
      ∷ ((record { codepoint = 0x4E2D; width = wide; has_text = true })
          ∷ (record { codepoint = 0; width = spacer_tail; has_text = false })
          ∷ unwritten
          ∷ [])
      ∷ (unwritten ∷ shown b' ' ∷ [])
      ∷ [];
}

content : get_screen_content screen ≡ codes "a b" ++ (10 ∷ 10 ∷ utf8 0x4E2D)
unfolding get_screen_content utf8
content = refl

first_line : get_screen_line screen (pos 0) ≡ codes "a b"
unfolding get_screen_line utf8
first_line = refl

last_line : get_screen_line screen (pos 3) ≡ []
unfolding get_screen_line utf8
last_line = refl

tail_cursor : get_cursor_position (some ((pos 2, pos 1), true)) (pos 0, pos 0) ≡ (pos 2, pos 0)
unfolding get_cursor_position ◌-ℤ◌
tail_cursor = refl

get_screen_content-trimmed_example :
    get_screen_content screen ≡ join_lines (trim_end is_filled (map trimmed (rows_read screen)))
get_screen_content-trimmed_example = get_screen_content-trimmed screen (
  (refl, (refl, (refl, (refl, tt)))),
  (tt, ((refl, (refl, (refl, tt))), ((refl, (refl, tt)), tt))),
)
