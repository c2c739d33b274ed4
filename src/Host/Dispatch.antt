-- ===== src/Host/Dispatch.antt =====
-- `DispatchKeyEvent` of napi_init.cpp: a pressed key goes to the clipboard requests, to the selection
-- or to the terminal.
pub mod Outcome
pub mod Selecting
use fish_term.Prelude.{
  ℕ, Bool, true, false, ◌&&◌, ◌||◌, not, List, [], ◌∷◌, ◌++◌, Option, none, some, ltb, leb, ◌==◌,
  if◌then◌else◌, ℤ, pos, negsuc, Bytes,
}
use fish_term.Host.LinuxKey.{
  linux_key_backspace, linux_key_c, linux_key_delete, linux_key_down, linux_key_left,
  linux_key_right, linux_key_up, linux_key_v,
}
use fish_term.Host.Keys.{
  Key, linux, letter, dpad_up, dpad_down, dpad_left, dpad_right, del, forward_del, Modifiers,
  is_modifier_key, build_key_sequence,
}
use fish_term.Terminal.Selection.Count.{get_selection_char_count}
use fish_term.Host.Surface.{
  Surface, write_input, unselect, erase_selected, at_start, at_end, select_step,
}

-- What the handler reads of a key event.
pub record KeyEvent : Type 0 where
  pub key_down : Bool
  pub key : Key
  pub modifiers : Modifiers
  pub caps_lock : Bool

-- The fields of `TerminalHost` that the handler reads or sets; `driver` is what the native sink has
-- taken, and `preview` is `m_imePreviewCodePoints`.
pub record Host : Type 0 where
  pub surface : Surface
  pub shift_held : Bool
  pub preview : ℕ
  pub copy_request : Bool
  pub paste_request : Bool
  pub driver : Bytes

-- The step of an arrow key: `dRow` and `dCol`.
unfoldable pub arrow_step : Key → Option (ℤ × ℤ)
arrow_step (linux code) =
    if code == linux_key_left
    then some (pos 0, negsuc 0)
    else if code == linux_key_right
    then some (pos 0, pos 1)
    else if code == linux_key_up
    then some (negsuc 0, pos 0)
    else if code == linux_key_down
    then some (pos 1, pos 0)
    else none
arrow_step dpad_left = some (pos 0, negsuc 0)
arrow_step dpad_right = some (pos 0, pos 1)
arrow_step dpad_up = some (negsuc 0, pos 0)
arrow_step dpad_down = some (pos 1, pos 0)
arrow_step key = none

abbrev pub is_arrow : Key → Bool
is_arrow key = elim (arrow_step key) [ none ↦ false | some step ↦ true ]

-- The key of a letter, by its Linux code or by its place in the alphabet.
abbrev pub is_letter : Key → ℕ → ℕ → Bool
is_letter (linux code) linux_code n = code == linux_code
is_letter (letter i) linux_code n = i == n
is_letter key linux_code n = false

abbrev pub is_backspace : Key → Bool
is_backspace (linux code) = code == linux_key_backspace
is_backspace del = true
is_backspace key = false

abbrev pub is_delete : Key → Bool
is_delete (linux code) = code == linux_key_delete
is_delete forward_del = true
is_delete key = false

-- One byte from 0x20 to 0x7E.
abbrev pub is_printable : Bytes → Bool
is_printable [] = false
is_printable (b ∷ []) = leb 0x20 b && leb b 0x7E
is_printable (b ∷ c ∷ bs) = false

-- What a key does to the text of a selection whose end the cursor is on.
pub data Edit : Type 0 where
  leave : Edit
  delete replace : Bool → Edit

-- `doDelete`, `doReplace` and `useBackwardDelete`.
unfoldable pub edit_of : Key → Modifiers → Bytes → Surface → Edit
edit_of key m sequence s =
    if s.alt_screen || not (at_start s || at_end s) || m.ctrl || m.alt
    then leave
    else if is_backspace key && at_end s
    then delete true
    else if is_delete key && at_start s
    then delete false
    else if is_printable sequence
    then replace (at_end s)
    else leave

-- Whether `getSelectionCharCount` gives a number of characters that can be erased.
abbrev pub is_erasable : Bool → Surface → Bool
is_erasable backward s =
    let count = get_selection_char_count s.view backward s.selection in ltb 0 count && leb count 200

-- The end of the handler: the sequence goes to the native sink or to the terminal.
unfoldable pub send : (Bytes → Bool) → Bytes → Host → Host
send sink sequence h =
    if sink sequence
    then record h { driver = h.driver ++ sequence }
    else record h { surface = write_input sequence h.surface }

-- The handler with an active selection, from the edit that the key makes on. The first component is
-- the value returned.
unfoldable pub edited : (Bytes → Bool) → Bytes → Host → Edit → Bool × Host
unfolding send erase_selected
edited sink sequence h leave =
    (true, send sink sequence (record h { surface = unselect h.surface }))
edited sink sequence h (delete backward) =
    if is_erasable backward h.surface
    then (true, record h { surface = unselect (erase_selected backward h.surface) })
    else (true, send sink sequence (record h { surface = unselect h.surface }))
edited sink sequence h (replace backward) =
    if is_erasable backward h.surface
    then (
      true,
      send sink sequence (record h { surface = unselect (erase_selected backward h.surface) }),
    )
    else (true, send sink sequence (record h { surface = unselect h.surface }))

-- The part of the handler behind `BuildKeySequence`.
unfoldable pub type_sequence : (Bytes → Bool) → Key → Modifiers → Bytes → Host → Bool × Host
unfolding edit_of send edited
type_sequence sink key m sequence h =
    if not h.surface.selection.active
    then (true, send sink sequence h)
    else edited sink sequence h (edit_of key m sequence h.surface)

-- The handler from `BuildKeySequence` on.
unfoldable pub typed_key : (Bytes → Bool) → KeyEvent → Host → Bool × Host
unfolding type_sequence
typed_key sink e h = elim (build_key_sequence e.key e.modifiers e.caps_lock) [
  | none ↦ (false, h)
  | some [] ↦ (false, h)
  | some (b ∷ bs) ↦ type_sequence sink e.key e.modifiers (b ∷ bs) h
]

-- The state of Shift, which an arrow key does not change.
unfoldable pub track_shift : Key → Modifiers → Host → Host
unfolding arrow_step
track_shift key m h = if is_arrow key then h else record h { shift_held = m.shift }

-- The part of the handler behind the tracking of Shift: the clipboard, the selection, or the typing.
unfoldable pub dispatch_tracked : (Bytes → Bool) → KeyEvent → Host → Bool × Host
unfolding arrow_step select_step typed_key
dispatch_tracked sink e h =
    let m = e.modifiers in
    let typed : Bool × Host = typed_key sink e h in
    if m.ctrl && m.shift && is_letter e.key linux_key_c 2
    then (true, record h { copy_request = true })
    else if m.ctrl && m.shift && is_letter e.key linux_key_v 21
    then (true, record h { paste_request = true })
    else if (m.shift || h.shift_held) && not m.ctrl && not m.alt
    then elim (arrow_step e.key) [
      | none ↦ typed
      | some (d_row, d_col) ↦ (
        true,
        record h {
          surface = select_step d_row d_col h.surface;
          shift_held = m.shift && h.shift_held;
        },
      )
    ]
    else typed

-- The part of the handler on the target host.
unfoldable pub dispatch_on : (Bytes → Bool) → KeyEvent → Host → Bool × Host
unfolding track_shift dispatch_tracked
dispatch_on sink e h = dispatch_tracked sink e (track_shift e.key e.modifiers h)

-- `DispatchKeyEvent` of a host with a terminal. `other` is the host of the input method, if it is
-- another one that has a terminal: then the key goes there.
unfoldable pub dispatch_key :
    (Bytes → Bool) → KeyEvent → Host → Option Host → Bool × (Host × Option Host)
unfolding is_modifier_key dispatch_on
dispatch_key sink e own other =
    let reset = record own { preview = 0 } in
    if not e.key_down || is_modifier_key e.key then (false, (own, other)) else elim other [
      | none ↦ (let (taken, h) = dispatch_on sink e reset in (taken, (h, none)))
      | some target ↦ (let (taken, h) = dispatch_on sink e target in (taken, (reset, some h)))
    ]
