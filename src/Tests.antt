-- ===== src/Tests.antt =====
-- Runs of the model on concrete inputs, and the theorems applied at such inputs.
mod ScreenTests
mod Utf8Tests
mod ViewTests
mod SelectionTests
mod HostTests
mod ReplyTests
mod TerminalSelectionTests
mod LinkTests
mod ThemeTests
mod SearchTests
mod InputTests
mod ImeTests
mod DriverTests
mod TextTests
mod FrameTests
mod ScreenTextTests
