-- ===== src/Terminal.antt =====
-- libghostty_ohos/src/main/cpp/terminal/terminal.{h,cpp}: the class `Terminal` around libghostty-vt.
pub mod Viewport
pub mod Search
pub mod Cells
pub mod Links
pub mod Selection
pub mod Mouse
pub mod Replies
pub mod Text
pub mod Colours
pub mod Frame
