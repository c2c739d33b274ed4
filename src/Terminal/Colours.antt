-- ===== src/Terminal/Colours.antt =====
-- The colours of libghostty-vt in terminal.cpp: `RgbToArgb`, `ArgbToRgb`, `ResolveStyleColor`,
-- `ApplyGhosttyStyle` and `ApplyThemeToRenderColors`. A colour is a 32-bit number, 0xAARRGGBB.
use Prim.Native.Nat.{bit_or}
use fish_term.Prelude.{
  ℕ, ◌+◌, ◌*◌, ◌/◌, ◌%◌, Bool, true, not, List, map, get_elem?, leb, ◌==◌, none, some, length, drop,
  ◌++◌,
}
use fish_term.Screen.Cell.{CellAttributes}
use fish_term.Theme.{Theme}

-- `ghostty_rgb_t`; a channel has 8 bits.
pub record Rgb : Type 0 where
  pub r : ℕ
  pub g : ℕ
  pub b : ℕ

-- `ghostty_render_state_colors_t`
pub record RenderColors : Type 0 where
  pub background : Rgb
  pub foreground : Rgb
  pub cursor : Rgb
  pub cursor_has_value : Bool
  pub palette : List Rgb

-- `ghostty_style_color_t`
pub data StyleColor : Type 0 where
  no_color : StyleColor
  palette_color : ℕ → StyleColor
  rgb_color : Rgb → StyleColor

-- `ghostty_style_t`
pub record Style : Type 0 where
  pub fg_color : StyleColor
  pub bg_color : StyleColor
  pub bold : Bool
  pub italic : Bool
  pub underline : ℕ
  pub strikethrough : Bool
  pub inverse : Bool
  pub invisible : Bool
  pub blink : Bool

-- `RgbToArgb`
unfoldable pub rgb_to_argb : Rgb → ℕ
rgb_to_argb c = bit_or (bit_or (bit_or 0xFF000000 (c.r * 65536)) (c.g * 256)) c.b

-- `ArgbToRgb`
unfoldable pub argb_to_rgb : ℕ → Rgb
argb_to_rgb argb = record { r = argb / 65536 % 256; g = argb / 256 % 256; b = argb % 256 }

-- `ResolveStyleColor`; the palette has 256 colours, and an index 8 bits.
unfoldable pub resolve_style_color : StyleColor → RenderColors → ℕ → ℕ
unfolding rgb_to_argb
resolve_style_color no_color colors fallback = fallback
resolve_style_color (rgb_color c) colors fallback = rgb_to_argb c
resolve_style_color (palette_color i) colors fallback = elim (get_elem? colors.palette i) [
  | none ↦ fallback
  | some c ↦ rgb_to_argb c
]

-- `ApplyGhosttyStyle`
unfoldable pub apply_ghostty_style : Style → RenderColors → CellAttributes → CellAttributes
unfolding resolve_style_color
apply_ghostty_style style colors attrs = record {
  fg = resolve_style_color style.fg_color colors (rgb_to_argb colors.foreground);
  bg = resolve_style_color style.bg_color colors (rgb_to_argb colors.background);
  bold = style.bold;
  italic = style.italic;
  underline = not (style.underline == 0);
  strikethrough = style.strikethrough;
  inverse = style.inverse;
  hidden = style.invisible;
  blink = style.blink;
}

-- `ApplyThemeToRenderColors`: the first colours of the palette are the theme's.
unfoldable pub apply_theme_to_render_colors : Theme → RenderColors → RenderColors
unfolding argb_to_rgb
apply_theme_to_render_colors theme colors = record {
  background = argb_to_rgb theme.background;
  foreground = argb_to_rgb theme.foreground;
  cursor = argb_to_rgb theme.cursor_color;
  cursor_has_value = true;
  palette = map argb_to_rgb theme.palette ++ drop (length theme.palette) colors.palette;
}

-- `HandleColorScheme`: whether the theme counts as a light one.
unfoldable pub is_light : Theme → Bool
is_light theme =
    let c = argb_to_rgb theme.background in leb 128000 (c.r * 299 + c.g * 587 + c.b * 114)
