-- ===== src/Host.antt =====
-- libghostty_ohos/src/main/cpp/napi_init.cpp: the surface host between the window system and the
-- terminal.
pub mod LinuxKey
pub mod Keys
pub mod Utf16
pub mod Surface
pub mod Dispatch
pub mod Ime
pub mod Frames
pub mod Pointer
