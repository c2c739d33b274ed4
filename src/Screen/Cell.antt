-- ===== src/Screen/Cell.antt =====
-- The cell types of libghostty_ohos/src/main/cpp/terminal/terminal_state.h, with their default
-- constructors. Colours and code points are uint32_t, written as numbers.
use fish_term.Prelude.{ℕ, Bool, false, List, replicate}

pub record CellAttributes : Type 0 where
  pub fg : ℕ
  pub bg : ℕ
  pub bold : Bool
  pub italic : Bool
  pub underline : Bool
  pub strikethrough : Bool
  pub inverse : Bool
  pub hidden : Bool
  pub blink : Bool

-- `CellAttributes()`
abbrev pub default_attributes : CellAttributes
default_attributes = record {
  fg = 0xFFFFFFFF;
  bg = 0xFF000000;
  bold = false;
  italic = false;
  underline = false;
  strikethrough = false;
  inverse = false;
  hidden = false;
  blink = false;
}

-- `text` is the array of 64 bytes.
pub record Cell : Type 0 where
  pub codepoint : ℕ
  pub text : List ℕ
  pub text_len : ℕ
  pub width : ℕ
  pub attrs : CellAttributes
  pub selected : Bool

-- `Cell()`
unfoldable pub blank : Cell
blank = record {
  codepoint = b' ';
  text = replicate 64 0;
  text_len = 0;
  width = 1;
  attrs = default_attributes;
  selected = false;
}
