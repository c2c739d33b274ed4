-- ===== src/Lib.antt =====
-- fish-term: the terminal state behind the HarmonyOS terminal emulator.
--
-- The native library keeps a display as a vector of cells and changes it by the methods of
-- `TerminalState` (libghostty_ohos/src/main/cpp/terminal/terminal_state.cpp); the class
-- `Terminal` (terminal.cpp, same folder) wraps libghostty-vt and hands out text in UTF-8.
--
--  Prelude          shared names, lists, integers, loops, buffers, grids
--  Screen/Cell      `Cell`, `CellAttributes` of terminal_state.h
--  Screen/State     the fields of `TerminalState`, its constructor, `setCell`, `setCursor`
--  Screen/Rows      the row loops of the scroll and erase methods, and what they leave
--  Screen/Erase     `clear`, `eraseInLine`, `eraseInDisplay`, `resize`
--  Screen/Scroll    `scrollUp`, `scrollDown`, `addLineToScrollback`, `setScrollRegion`
--  Screen/Writing   `putChar`, `newLine`, `lineFeed`, `reverseIndex` and the cursor moves
--  Screen/Steps     all of these as one step function, with the invariant
--  Terminal/Viewport  `getViewportTopRowLocked`, `getScrollbackSize` of terminal.cpp
--  Terminal/Search  the search fields and methods of `Terminal`, and `AsciiLower`
--  Screen/View      `scrollView`, `getVisibleBuffer` cell by cell
--  Screen/Selection the selection of `TerminalState`, and `IsCellSelected` of terminal.cpp
--  Screen/Text      the text, the theme and the palette of `TerminalState`
--  Utf8             `AppendUtf8` of terminal.cpp
--  Terminal/Cells   the cells on display, `IsCellContent`, `ClassifySelectionCodepoint`, word loops
--  Terminal/Selection  the selection of `Terminal`: calls, `feedOutput`, text, count
--  Terminal/Mouse   `wheelScroll` and `reportMouse` of terminal.cpp
--  Terminal/Replies the replies to colour and capability queries of terminal.cpp
--  Terminal/Links   `getLinkAt` of terminal.cpp
--  Terminal/Text    `getScreenLine`, `getScreenContent`, `getCursorPosition` of terminal.cpp
--  Terminal/Colours `RgbToArgb`, `ApplyGhosttyStyle` and the other colour functions of terminal.cpp
--  Terminal/Frame   the cells that `drawFrame` of terminal.cpp hands to the renderer
--  Theme            `TerminalTheme` of theme.h
--  Theme/Parser     `ThemeParser` of theme.cpp
--  Host/LinuxKey    the LINUX_KEY constants of libghostty_ohos/src/main/cpp/napi_init.cpp
--  Host/Keys        `BuildKeySequence` and what it calls
--  Host/Utf16       `Utf8ToUtf16` and `Utf16ToUtf8` of napi_init.cpp
--  Host/Surface     what the handlers of napi_init.cpp do to a terminal and its selection
--  Host/Dispatch    `DispatchKeyEvent`
--  Host/Ime         the handlers of the input method (`InsertImeText`, `HandleImeSetPreviewText`, ...)
--  Host/Frames      `RequestRender`, `OnVsyncTick` and the other calls of the vertical sync
--  Host/Pointer     `DispatchMouseEvent`
--  Driver/Request   `ParseSshCommand`, `SanitizeLogChunk` of entry/src/main/cpp/example_driver.cpp
--  Driver/Session   the modes, the password and the triggers of the class `ExampleDriver`
--  Tests            runs on concrete inputs
--
-- A method that indexes the buffer returns an `Option`: `none` is an access outside the buffer,
-- which is undefined in C++. Loops recur on the number of their rounds or on a list; five loops
-- have fuel: the two loops over the triggers in the output of the local shell, the bytes of the
-- text, since each round but the last passes a trigger; that over the matches of a line, one
-- more than the bytes of the line, since each match starts at another byte; that of
-- `Utf8ToUtf16`, the bytes of the text, since each round takes one or more; and the printing of
-- a number in decimal, one more than the number. The search takes the lines of the scrollback,
-- the scrollbar and what a scroll does to the viewport, which come from libghostty-vt, as
-- arguments; it is that of a terminal whose libghostty-vt handle exists, and the number of its
-- matches fits an `int`. The selection of `Terminal` takes the size, the top row and the cells
-- of the render state as one argument, and the calls are those of a terminal whose render state
-- updates. A frame takes the cells, styles and colours of the render state, and the buffer of
-- the last frame row by row. A mouse call takes the modes of libghostty-vt and gives what it
-- sends. The key codes of the platform's header are a type with its names; the letters, the
-- digits and the keys of the number pad are numbered, since that header numbers them one after
-- another. `snprintf`, `strtol`, `stoul` (for 64 bits), `stoi`, `isspace` and `isalnum` are
-- those of the C locale. The handlers of napi_init.cpp are those of a host whose terminal runs
-- and has an input callback; the platform's events, the cell under the mouse and the native
-- sink's answer are arguments, and times are 64-bit numbers. Of the example driver,
-- `SSHSession::connect` and the text of the prompt are arguments, and writes to the shell
-- succeed. Sizes are positive and small enough that `row * m_cols + col` does not overflow an
-- `int`; rows, columns and region bounds that the class keeps are natural numbers, and what a
-- caller passes and the code checks is an integer.
--
-- Not modelled: libghostty-vt itself (third party), drawing, process, socket and N-API calls,
-- and the ArkTS user interface.
pub mod Driver
pub mod Host
pub mod Prelude
pub mod Screen
pub mod Terminal
pub mod Tests
pub mod Theme
pub mod Utf8
