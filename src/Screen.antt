-- ===== src/Screen.antt =====
-- libghostty_ohos/src/main/cpp/terminal/terminal_state.{h,cpp}: the class `TerminalState`.
pub mod Cell
pub mod State
pub mod Rows
pub mod Erase
pub mod Frame
pub mod Scroll
pub mod Writing
pub mod Steps
pub mod View
pub mod Selection
pub mod Text
