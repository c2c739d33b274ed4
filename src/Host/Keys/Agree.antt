-- ===== src/Host/Keys/Agree.antt =====
-- A key has the same sequence by its Linux code and by its platform code.
use fish_term.Prelude.{
  ℕ, zero, suc, ◌<◌, ◌≡◌, refl, ap, Bool, true, false, ◌&&◌, List, [], ◌∷◌, Option, none, some,
  arith, Bytes, eqb_bytes, eqb_bytes→eq, switch, switch-AllCases,
}
use fish_term.Host.Keys.{
  Key, linux, letter, digit, dpad_up, dpad_down, dpad_left, dpad_right, enter, key_tab, del,
  forward_del, move_home, move_end, page_up, page_down, insert_key, space, grave, minus, equals,
  left_bracket, right_bracket, backslash, semicolon, apostrophe, comma, period, slash, Modifiers,
  build_key_sequence,
}

-- The platform's code of the key with a Linux code.
abbrev platform_keys : List (ℕ × Key)
platform_keys =
    (2, digit 1)
    ∷ (3, digit 2)
    ∷ (4, digit 3)
    ∷ (5, digit 4)
    ∷ (6, digit 5)
    ∷ (7, digit 6)
    ∷ (8, digit 7)
    ∷ (9, digit 8)
    ∷ (10, digit 9)
    ∷ (11, digit 0)
    ∷ (12, minus)
    ∷ (13, equals)
    ∷ (14, del)
    ∷ (15, key_tab)
    ∷ (16, letter 16)
    ∷ (17, letter 22)
    ∷ (18, letter 4)
    ∷ (19, letter 17)
    ∷ (20, letter 19)
    ∷ (21, letter 24)
    ∷ (22, letter 20)
    ∷ (23, letter 8)
    ∷ (24, letter 14)
    ∷ (25, letter 15)
    ∷ (26, left_bracket)
    ∷ (27, right_bracket)
    ∷ (28, enter)
    ∷ (30, letter 0)
    ∷ (31, letter 18)
    ∷ (32, letter 3)
    ∷ (33, letter 5)
    ∷ (34, letter 6)
    ∷ (35, letter 7)
    ∷ (36, letter 9)
    ∷ (37, letter 10)
    ∷ (38, letter 11)
    ∷ (39, semicolon)
    ∷ (40, apostrophe)
    ∷ (41, grave)
    ∷ (43, backslash)
    ∷ (44, letter 25)
    ∷ (45, letter 23)
    ∷ (46, letter 2)
    ∷ (47, letter 21)
    ∷ (48, letter 1)
    ∷ (49, letter 13)
    ∷ (50, letter 12)
    ∷ (51, comma)
    ∷ (52, period)
    ∷ (53, slash)
    ∷ (57, space)
    ∷ (102, move_home)
    ∷ (103, dpad_up)
    ∷ (104, page_up)
    ∷ (105, dpad_left)
    ∷ (106, dpad_right)
    ∷ (107, move_end)
    ∷ (108, dpad_down)
    ∷ (109, page_down)
    ∷ (110, insert_key)
    ∷ (111, forward_del)
    ∷ []

abbrev pub platform_key : ℕ → Option Key
platform_key code = switch code platform_keys

same_sequence : Option Bytes → Option Bytes → Bool
same_sequence (some s) (some t) = eqb_bytes s t
same_sequence s t = false

same_sequence→eq : (s t : Option Bytes) → same_sequence s t ≡ true → s ≡ t
unfolding same_sequence
same_sequence→eq (some s) (some t) h = ap some (eqb_bytes→eq s t h)
same_sequence→eq (some s) none h = cc
same_sequence→eq none (some t) h = cc
same_sequence→eq none none h = cc

agrees_with : Option Key → Modifiers → Bool → ℕ → Bool
unfolding same_sequence
agrees_with none m caps code = true
agrees_with (some key) m caps code =
    same_sequence (build_key_sequence (linux code) m caps) (build_key_sequence key m caps)

agrees : Modifiers → Bool → ℕ → Bool
unfolding agrees_with
agrees m caps code = agrees_with (platform_key code) m caps code

agrees_below : ℕ → Modifiers → Bool → Bool
agrees_below zero m caps = true
agrees_below (suc n) m caps = agrees m caps n && agrees_below n m caps

agrees_table :
    (ctrl alt shift caps : Bool)
    → agrees_below 112 (record { ctrl = ctrl; alt = alt; shift = shift }) caps ≡ true
unfolding agrees_below agrees build_key_sequence
agrees_table true true true true = refl
agrees_table true true true false = refl
agrees_table true true false true = refl
agrees_table true true false false = refl
agrees_table true false true true = refl
agrees_table true false true false = refl
agrees_table true false false true = refl
agrees_table true false false false = refl
agrees_table false true true true = refl
agrees_table false true true false = refl
agrees_table false true false true = refl
agrees_table false true false false = refl
agrees_table false false true true = refl
agrees_table false false true false = refl
agrees_table false false false true = refl
agrees_table false false false false = refl

agrees_below_sound :
    (n code : ℕ) (m : Modifiers) (caps : Bool)
    → agrees_below n m caps ≡ true
    → code < n
    → agrees m caps code ≡ true
unfolding agrees_below
agrees_below_sound zero code m caps h lt = absurd (omega arith)
agrees_below_sound (suc n) code m caps h lt = ground (arith, agrees_below_sound n code m caps)

platform_key-lt : (code : ℕ) (key : Key) → platform_key code ≡ some key → code < 112
platform_key-lt code key e = switch-AllCases (λ k a. k < 112) code platform_keys key e (omega arith)

-- Every key that the source knows by a Linux code and by a platform code has the same sequence by
-- both, or none by both, with any modifiers and with CapsLock on or off.
pub build_key_sequence-platform_key :
    (code : ℕ) (key : Key) (m : Modifiers) (caps_lock : Bool)
    → platform_key code ≡ some key
    → build_key_sequence (linux code) m caps_lock ≡ build_key_sequence key m caps_lock
unfolding agrees
build_key_sequence-platform_key code key m caps e =
    let table =
      agrees_below_sound 112 code m caps (agrees_table m.ctrl m.alt m.shift caps)
        (platform_key-lt code key e) in
    same_sequence→eq (build_key_sequence (linux code) m caps) (build_key_sequence key m caps)
      (rw (e, agrees_with) at table)
