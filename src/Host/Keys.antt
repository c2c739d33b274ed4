-- ===== src/Host/Keys.antt =====
-- The hardware keys: `IsModifierKeyCode`, `LinuxLetterOffset`, `AppendPrintableKey` and
-- `BuildKeySequence` of napi_init.cpp.
pub mod Agree
pub mod Shape
use fish_term.Prelude.{
  ℕ, ◌+◌, ◌-◌, ◌≤◌, Bool, true, false, not, ◌&&◌, ◌||◌, List, [], ◌∷◌, ◌++◌, Option, none, some,
  get_elem?, leb, ltb, ◌==◌, if◌then◌else◌, Bytes, codes, switch,
}
use fish_term.Host.LinuxKey.{
  linux_key_0, linux_key_1, linux_key_a, linux_key_apostrophe, linux_key_b, linux_key_backslash,
  linux_key_backspace, linux_key_c, linux_key_capslock, linux_key_comma, linux_key_d,
  linux_key_delete, linux_key_dot, linux_key_down, linux_key_e, linux_key_end, linux_key_enter,
  linux_key_equals, linux_key_f, linux_key_g, linux_key_grave, linux_key_h, linux_key_home,
  linux_key_i, linux_key_insert, linux_key_j, linux_key_k, linux_key_l, linux_key_left,
  linux_key_left_brace, linux_key_leftalt, linux_key_leftctrl, linux_key_leftmeta,
  linux_key_leftshift, linux_key_m, linux_key_minus, linux_key_n, linux_key_o, linux_key_p,
  linux_key_page_down, linux_key_page_up, linux_key_q, linux_key_r, linux_key_right,
  linux_key_right_brace, linux_key_rightalt, linux_key_rightctrl, linux_key_rightmeta,
  linux_key_rightshift, linux_key_s, linux_key_semicolon, linux_key_slash, linux_key_space,
  linux_key_t, linux_key_tab, linux_key_u, linux_key_up, linux_key_v, linux_key_w, linux_key_x,
  linux_key_y, linux_key_z,
}

-- `OH_NativeXComponent_KeyCode`: the Linux codes that the file defines by their numbers, and the
-- codes that the platform's header names. `letter n` is `KEY_A + n` and `digit n` is `KEY_0 + n`,
-- since the platform numbers these codes one after another; `numpad n` is `KEY_NUMPAD_0 + n`, and
-- `function_key n` is `KEY_Fn`. `other` is a code that the file does not name.
pub data Key : Type 0 where
  linux : ℕ → Key
  letter : ℕ → Key
  digit : ℕ → Key
  numpad : ℕ → Key
  function_key : ℕ → Key
  dpad_up dpad_down dpad_left dpad_right : Key
  escape enter numpad_enter key_tab del forward_del move_home home move_end : Key
  page_up page_down insert_key : Key
  space grave minus equals left_bracket right_bracket backslash semicolon apostrophe : Key
  comma period slash : Key
  numpad_dot numpad_comma numpad_divide numpad_multiply numpad_subtract numpad_add : Key
  other : ℕ → Key

-- `IsCtrlPressed`, `IsAltPressed` and `IsShiftPressed` of a mask of modifiers.
pub record Modifiers : Type 0 where
  pub ctrl : Bool
  pub alt : Bool
  pub shift : Bool

-- `IsModifierKeyCode`: the Ctrl, Shift, Alt and Meta keys of both sides, and CapsLock.
unfoldable pub is_modifier_key : Key → Bool
is_modifier_key (linux code) =
    code == linux_key_leftctrl
    || code == linux_key_rightctrl
    || code == linux_key_leftshift
    || code == linux_key_rightshift
    || code == linux_key_leftalt
    || code == linux_key_rightalt
    || code == linux_key_leftmeta
    || code == linux_key_rightmeta
    || code == linux_key_capslock
is_modifier_key other_key = false

-- `LinuxLetterOffset`, where `none` is -1: the Linux codes of A to Z.
abbrev pub letter_cases : List (ℕ × ℕ)
letter_cases =
    (linux_key_a, 0)
    ∷ (linux_key_b, 1)
    ∷ (linux_key_c, 2)
    ∷ (linux_key_d, 3)
    ∷ (linux_key_e, 4)
    ∷ (linux_key_f, 5)
    ∷ (linux_key_g, 6)
    ∷ (linux_key_h, 7)
    ∷ (linux_key_i, 8)
    ∷ (linux_key_j, 9)
    ∷ (linux_key_k, 10)
    ∷ (linux_key_l, 11)
    ∷ (linux_key_m, 12)
    ∷ (linux_key_n, 13)
    ∷ (linux_key_o, 14)
    ∷ (linux_key_p, 15)
    ∷ (linux_key_q, 16)
    ∷ (linux_key_r, 17)
    ∷ (linux_key_s, 18)
    ∷ (linux_key_t, 19)
    ∷ (linux_key_u, 20)
    ∷ (linux_key_v, 21)
    ∷ (linux_key_w, 22)
    ∷ (linux_key_x, 23)
    ∷ (linux_key_y, 24)
    ∷ (linux_key_z, 25)
    ∷ []

unfoldable pub linux_letter_offset : ℕ → Option ℕ
linux_letter_offset code = switch code letter_cases

-- The letter of a key, from A as 0.
unfoldable pub letter_offset : Key → Option ℕ
unfolding linux_letter_offset
letter_offset (linux code) = linux_letter_offset code
letter_offset (letter n) = if leb n 25 then some n else none
letter_offset other_key = none

-- The byte with the shift key up or down.
abbrev pub shifted : Bool → ℕ → ℕ → ℕ
shifted shift down up = if shift then down else up

-- The last `switch` of `AppendPrintableKey`, for the Linux codes.
abbrev pub symbol_cases : Bool → List (ℕ × ℕ)
symbol_cases shift =
    (linux_key_space, b' ')
    ∷ (linux_key_grave, shifted shift b'~' b'`')
    ∷ (linux_key_minus, shifted shift b'_' b'-')
    ∷ (linux_key_equals, shifted shift b'+' b'=')
    ∷ (linux_key_left_brace, shifted shift b'{' b'[')
    ∷ (linux_key_right_brace, shifted shift b'}' b']')
    ∷ (linux_key_backslash, shifted shift b'|' b'\\')
    ∷ (linux_key_semicolon, shifted shift b':' b';')
    ∷ (linux_key_apostrophe, shifted shift b'"' b'\'')
    ∷ (linux_key_comma, shifted shift b'<' b',')
    ∷ (linux_key_dot, shifted shift b'>' b'.')
    ∷ (linux_key_slash, shifted shift b'?' b'/')
    ∷ []

unfoldable pub linux_symbol : ℕ → Bool → Option ℕ
linux_symbol code shift = switch code (symbol_cases shift)

-- The rest of `AppendPrintableKey` for a key that is no letter.
unfoldable pub symbol : Key → Bool → Option ℕ
unfolding linux_symbol
symbol (linux code) shift =
    if leb linux_key_1 code && leb code linux_key_0
    then get_elem? (if shift then codes "!@#$%^&*()" else codes "1234567890") (code - linux_key_1)
    else linux_symbol code shift
symbol (digit n) shift =
    if leb n 9 then get_elem? (if shift then codes ")!@#$%^&*(" else codes "0123456789") n else none
symbol space shift = some b' '
symbol key_tab shift = some 9
symbol grave shift = some (shifted shift b'~' b'`')
symbol minus shift = some (shifted shift b'_' b'-')
symbol equals shift = some (shifted shift b'+' b'=')
symbol left_bracket shift = some (shifted shift b'{' b'[')
symbol right_bracket shift = some (shifted shift b'}' b']')
symbol backslash shift = some (shifted shift b'|' b'\\')
symbol semicolon shift = some (shifted shift b':' b';')
symbol apostrophe shift = some (shifted shift b'"' b'\'')
symbol comma shift = some (shifted shift b'<' b',')
symbol period shift = some (shifted shift b'>' b'.')
symbol slash shift = some (shifted shift b'?' b'/')
symbol (numpad n) shift = if leb n 9 then some (b'0' + n) else none
symbol numpad_dot shift = some b'.'
symbol numpad_comma shift = some b','
symbol numpad_divide shift = some b'/'
symbol numpad_multiply shift = some b'*'
symbol numpad_subtract shift = some b'-'
symbol numpad_add shift = some b'+'
symbol other_key shift = none

-- `shift ^ capsLock`
abbrev pub xor : Bool → Bool → Bool
xor true b = not b
xor false b = b

-- `AppendPrintableKey`: the byte that it appends, or `none` where it returns false.
unfoldable pub append_printable_key : Key → Bool → Bool → Option ℕ
unfolding letter_offset symbol
append_printable_key key shift caps_lock = elim (letter_offset key) [
  | some n ↦ some ((if xor shift caps_lock then b'A' else b'a') + n)
  | none ↦ symbol key shift
]

-- The first `switch` of `BuildKeySequence`.
abbrev pub named_cases : Bool → List (ℕ × Bytes)
named_cases shift =
    (linux_key_up, 27 ∷ codes "[A")
    ∷ (linux_key_down, 27 ∷ codes "[B")
    ∷ (linux_key_right, 27 ∷ codes "[C")
    ∷ (linux_key_left, 27 ∷ codes "[D")
    ∷ (linux_key_enter, 13 ∷ [])
    ∷ (linux_key_tab, if shift then 27 ∷ codes "[Z" else 9 ∷ [])
    ∷ (linux_key_backspace, 127 ∷ [])
    ∷ (linux_key_delete, 27 ∷ codes "[3~")
    ∷ (linux_key_home, 27 ∷ codes "[H")
    ∷ (linux_key_end, 27 ∷ codes "[F")
    ∷ (linux_key_page_up, 27 ∷ codes "[5~")
    ∷ (linux_key_page_down, 27 ∷ codes "[6~")
    ∷ (linux_key_insert, 27 ∷ codes "[2~")
    ∷ []

unfoldable pub linux_named : ℕ → Bool → Option Bytes
linux_named code shift = switch code (named_cases shift)

abbrev pub function_cases : List (ℕ × Bytes)
function_cases =
    (1, 27 ∷ codes "OP")
    ∷ (2, 27 ∷ codes "OQ")
    ∷ (3, 27 ∷ codes "OR")
    ∷ (4, 27 ∷ codes "OS")
    ∷ (5, 27 ∷ codes "[15~")
    ∷ (6, 27 ∷ codes "[17~")
    ∷ (7, 27 ∷ codes "[18~")
    ∷ (8, 27 ∷ codes "[19~")
    ∷ (9, 27 ∷ codes "[20~")
    ∷ (10, 27 ∷ codes "[21~")
    ∷ (11, 27 ∷ codes "[23~")
    ∷ (12, 27 ∷ codes "[24~")
    ∷ []

unfoldable pub function_sequence : ℕ → Option Bytes
function_sequence n = switch n function_cases

unfoldable pub named_sequence : Key → Bool → Option Bytes
unfolding linux_named function_sequence
named_sequence (linux code) shift = linux_named code shift
named_sequence (function_key n) shift = function_sequence n
named_sequence dpad_up shift = some (27 ∷ codes "[A")
named_sequence dpad_down shift = some (27 ∷ codes "[B")
named_sequence dpad_right shift = some (27 ∷ codes "[C")
named_sequence dpad_left shift = some (27 ∷ codes "[D")
named_sequence escape shift = some (27 ∷ [])
named_sequence enter shift = some (13 ∷ [])
named_sequence numpad_enter shift = some (13 ∷ [])
named_sequence key_tab shift = some (if shift then 27 ∷ codes "[Z" else 9 ∷ [])
named_sequence del shift = some (127 ∷ [])
named_sequence forward_del shift = some (27 ∷ codes "[3~")
named_sequence move_home shift = some (27 ∷ codes "[H")
named_sequence home shift = some (27 ∷ codes "[H")
named_sequence move_end shift = some (27 ∷ codes "[F")
named_sequence page_up shift = some (27 ∷ codes "[5~")
named_sequence page_down shift = some (27 ∷ codes "[6~")
named_sequence insert_key shift = some (27 ∷ codes "[2~")
named_sequence other_key shift = none

-- The printable key behind an escape byte if Alt is held.
unfoldable pub alt_prefix : Bool → Option ℕ → Option Bytes
alt_prefix alt none = none
alt_prefix alt (some byte) = some ((if alt then 27 ∷ [] else []) ++ byte ∷ [])

-- The part of `BuildKeySequence` behind its first `switch`.
unfoldable pub plain_sequence : Key → Modifiers → Bool → Option Bytes
unfolding letter_offset append_printable_key alt_prefix
plain_sequence key m caps_lock =
    let printable = alt_prefix m.alt (append_printable_key key m.shift caps_lock) in
    if m.ctrl
    then elim (letter_offset key) [ some n ↦ some ((1 + n) ∷ []) | none ↦ printable ]
    else printable

-- `BuildKeySequence`: the sequence, or `none` where it returns false.
unfoldable pub build_key_sequence : Key → Modifiers → Bool → Option Bytes
unfolding named_sequence plain_sequence
build_key_sequence key m caps_lock = elim (named_sequence key m.shift) [
  | some sequence ↦ some sequence
  | none ↦ plain_sequence key m caps_lock
]
