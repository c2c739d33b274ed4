-- ===== src/Tests/ScreenTextTests.antt =====
-- Runs of the text and of the palette of `TerminalState`.
use fish_term.Prelude.{ℕ, ◌≡◌, refl, true, false, [], ◌∷◌, ◌++◌, some, pos, ◌+ℤ◌, ◌-ℤ◌, codes}
use fish_term.Theme.{default_theme}
use fish_term.Screen.Cell.{Cell, blank}
use fish_term.Screen.State.{Screen, create, get_cell}
use fish_term.Screen.Text.{
  get_content, get_buffer_text, is_marked, get_palette_color, set_theme, get_scrollback_line,
  reset_view_scroll,
}

abbrev letter : ℕ → Cell
letter c = record blank { codepoint = c }

-- `ab`, `c` and a wide sign.
abbrev screen : Screen
screen = record (create 2 2) {
  buffer = letter b'a' ∷ letter b'b' ∷ letter b'c' ∷ letter 0xE9 ∷ [];
  selection_active = true;
  sel_start_row = pos 1;
  sel_start_col = pos 0;
  sel_end_row = pos 0;
  sel_end_col = pos 1;
}

content : get_content screen ≡ some (codes "ab" ++ (10 ∷ b'c' ∷ 0xC3 ∷ 0xA9 ∷ 10 ∷ []))
unfolding get_content create blank
content = refl

selected : get_buffer_text screen ≡ some (b'b' ∷ 10 ∷ b'c' ∷ [])
unfolding get_buffer_text create blank get_cell ◌+ℤ◌ ◌-ℤ◌
selected = refl

marked : is_marked screen 1 0 ≡ true
unfolding is_marked create ◌-ℤ◌
marked = refl

not_marked : is_marked screen 1 1 ≡ false
unfolding is_marked create ◌-ℤ◌
not_marked = refl

red : get_palette_color default_theme (pos 196) ≡ some 0xFFFF0000
unfolding get_palette_color default_theme
red = refl

grey : get_palette_color default_theme (pos 255) ≡ some 0xFFEEEEEE
unfolding get_palette_color default_theme
grey = refl

themed : (set_theme default_theme screen).1.current_attrs.fg ≡ 0xFFFFFFFF
unfolding set_theme default_theme create
themed = refl

no_line : get_scrollback_line (pos 0) screen ≡ []
unfolding get_scrollback_line create
no_line = refl

scrolled_back : (reset_view_scroll (record screen { view_offset = 3 })).view_offset ≡ 0
unfolding reset_view_scroll
scrolled_back = refl
