-- ===== src/Theme.antt =====
-- libghostty_ohos/src/main/cpp/terminal/theme.{h,cpp}: the colours of a terminal. A colour is a
-- 32-bit number, 0xAARRGGBB.
pub mod Parser
use fish_term.Prelude.{ℕ, List, [], ◌∷◌, Bytes}

-- `TerminalTheme`; the palette has 16 colours.
pub record Theme : Type 0 where
  pub name : Bytes
  pub palette : List ℕ
  pub background : ℕ
  pub foreground : ℕ
  pub cursor_color : ℕ
  pub cursor_text : ℕ
  pub selection_background : ℕ
  pub selection_foreground : ℕ

-- `TerminalTheme()`
unfoldable pub default_theme : Theme
default_theme = record {
  name = [];
  palette =
      0xFF000000 ∷ 0xFFCC0000 ∷ 0xFF00CC00 ∷ 0xFFCCCC00 ∷ 0xFF0000CC ∷ 0xFFCC00CC ∷ 0xFF00CCCC
      ∷ 0xFFCCCCCC ∷ 0xFF555555 ∷ 0xFFFF5555 ∷ 0xFF55FF55 ∷ 0xFFFFFF55 ∷ 0xFF5555FF ∷ 0xFFFF55FF
      ∷ 0xFF55FFFF ∷ 0xFFFFFFFF ∷ [];
  background = 0xFF000000;
  foreground = 0xFFFFFFFF;
  cursor_color = 0xFFFFFFFF;
  cursor_text = 0xFF000000;
  selection_background = 0xFF444444;
  selection_foreground = 0xFFFFFFFF;
}
