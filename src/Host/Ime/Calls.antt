-- ===== src/Host/Ime/Calls.antt =====
-- What the input method's calls do to the line behind the terminal.
use mathlib.Core.List.{append_assoc, append-nil}
use fish_term.Prelude.{
  take-append-drop, length-drop, length-append, ℕ, ◌≤◌, ◌≡◌, refl, sym, ap, ◌∙◌, Bool, true, false,
  ◌&&◌, ◌||◌, not, inl, inr, List, [], ◌∷◌, ◌++◌, length, ltb, leb, ◌-◌, subst, take, drop, ◌==◌,
  if◌then◌else◌, Bool-cases, Bytes, arith,
}
use fish_term.Utf8.{encode, utf8}
use fish_term.Host.Utf16.{units, utf16_to_utf8}
use fish_term.Host.Utf16.RoundTrip.{utf16, utf16_to_utf8-utf16}
use fish_term.Terminal.Mouse.{repeat}
use fish_term.Host.Surface.{Surface, replace_selection, at_end, at_start}
use fish_term.Host.Ime.{
  Ime, write, insert_ime_text, utf16_code_point_count, erase_characters, erase_preview,
  show_preview, handle_ime_set_preview_text, handle_ime_finish_preview,
}
use fish_term.Host.Ime.Preview.{
  type_bytes, type_bytes-nil, type_bytes-append, type_bytes-deletes, IsPlain, plain-IsText,
  utf16_code_point_count-utf16,
}

-- A call of the input method: `SetPreviewText`, `FinishPreview` or `InsertText`.
pub data Call : Type 0 where
  compose insert : List ℕ → Call
  finish : Call

abbrev pub run_call : Call → Ime → Ime
run_call (compose cs) i = handle_ime_set_preview_text (utf16 cs) i
run_call (insert cs) i = insert_ime_text (utf16 cs) i
run_call finish i = handle_ime_finish_preview i

abbrev pub run_calls : List Call → Ime → Ime
run_calls [] i = i
run_calls (call ∷ calls) i = run_calls calls (run_call call i)

-- The characters behind a line, and how many of them, the last ones, are a preview to take back.
abbrev pub Composed : Type 0
Composed = List ℕ × ℕ

-- The characters without the preview.
abbrev pub kept : Composed → List ℕ
kept (cs, preview) = take (length cs - preview) cs

-- What a call means. A preview of more than 200 characters is not taken back, and a text inserted
-- before a preview is finished counts as a part of the characters to take back.
abbrev pub compose_call : Call → Composed → Composed
compose_call (compose new) c = (kept c ++ new, if ltb 200 (length new) then 0 else length new)
compose_call (insert new) (cs, preview) = (cs ++ new, preview)
compose_call finish c = (kept c, 0)

abbrev pub compose_calls : List Call → Composed → Composed
compose_calls [] c = c
compose_calls (call ∷ calls) c = compose_calls calls (compose_call call c)

abbrev pub IsCall : Call → Type 0
IsCall (compose cs) = IsPlain cs
IsCall (insert cs) = IsPlain cs
IsCall finish = Unit

abbrev pub AreCalls : List Call → Type 0
AreCalls [] = Unit
AreCalls (call ∷ calls) = IsCall call × AreCalls calls

-- The host has written characters behind a line, and knows how many of them to take back.
abbrev pub Shows : Bytes → Composed → Ime → Type 0
Shows line (cs, preview) i =
    (i.wants_ime ≡ true)
    × (i.surface.selection.active ≡ false)
    × (i.preview ≡ preview)
    × (preview ≤ 200)
    × (preview ≤ length cs)
    × IsPlain cs
    × (type_bytes i.surface.written [] ≡ type_bytes (encode cs) line)

if_off {ℓ} : {A : Type ℓ} (a b c : Bool) (x y : A) → a ≡ false → (if a && b && c then x else y) ≡ y
if_off true b c x y e = cc
if_off false b c x y e = refl

if_on {ℓ} : {A : Type ℓ} (a : Bool) (x y : A) → a ≡ true → (if not a then x else y) ≡ y
if_on true x y e = refl
if_on false x y e = cc

if_or {ℓ} :
    {A : Type ℓ} (a b : Bool) (x y : A)
    → a ≡ true
    → (if not a || b then x else y) ≡ (if b then x else y)
if_or true b x y e = refl
if_or false b x y e = cc

replace_selection_inactive : (s : Surface) → s.selection.active ≡ false → replace_selection s ≡ s
unfolding replace_selection
replace_selection_inactive s off =
    if_off s.selection.active (not s.alt_screen) (at_end s || at_start s) _ s off

erase_characters-selection :
    (count : ℕ) (s : Surface) → (erase_characters count s).selection ≡ s.selection
unfolding erase_characters
erase_characters-selection count s = elim (Bool-cases (ltb 0 count && leb count 200)) [
  | inl on ↦ rw on refl
  | inr off ↦ rw off refl
]

erase_characters-written :
    (cs : List ℕ) (line : Bytes) (s : Surface)
    → length cs ≤ 200
    → IsPlain cs
    → type_bytes s.written [] ≡ type_bytes (encode cs) line
    → type_bytes (erase_characters (length cs) s).written [] ≡ line
unfolding erase_characters
erase_characters-written [] line s few p shown = shown ∙ type_bytes-nil line
erase_characters-written (c ∷ cs) line s few p shown =
    let on : (ltb 0 (length (c ∷ cs)) && leb (length (c ∷ cs)) 200) ≡ true = ground arith in
    rw on (
      type_bytes-append s.written (repeat (length (c ∷ cs)) (127 ∷ [])) []
      ∙ ap (type_bytes (repeat (length (c ∷ cs)) (127 ∷ []))) shown
      ∙ type_bytes-deletes (c ∷ cs) line p)

encode-append : (a b : List ℕ) → encode (a ++ b) ≡ encode a ++ encode b
unfolding encode
encode-append [] b = refl
encode-append (c ∷ a) b =
    ap (λ t. utf8 c ++ t) (encode-append a b) ∙ sym (append_assoc (utf8 c) (encode a) (encode b))

type_bytes-encode :
    (a b : List ℕ) (line : Bytes)
    → type_bytes (encode (a ++ b)) line ≡ type_bytes (encode b) (type_bytes (encode a) line)
type_bytes-encode a b line =
    ap (λ t. type_bytes t line) (encode-append a b) ∙ type_bytes-append (encode a) (encode b) line

append-IsPlain : (a b : List ℕ) → IsPlain a → IsPlain b → IsPlain (a ++ b)
append-IsPlain [] b p q = q
append-IsPlain (c ∷ a) b p q = (p.0, append-IsPlain a b p.1 q)

split-IsPlain : (a b : List ℕ) → IsPlain (a ++ b) → IsPlain a × IsPlain b
split-IsPlain [] b p = (tt, p)
split-IsPlain (c ∷ a) b p = let (front, back) = split-IsPlain a b p.1 in ((p.0, front), back)

kept_parts : (n : ℕ) (cs : List ℕ) → IsPlain cs → IsPlain (take n cs) × IsPlain (drop n cs)
kept_parts n cs p =
    split-IsPlain (take n cs) (drop n cs) (subst IsPlain (sym (take-append-drop n cs)) p)

-- Erasing takes the preview off the line.
erase_preview-Shows :
    (line : Bytes) (cs : List ℕ) (preview : ℕ) (i : Ime)
    → Shows line (cs, preview) i
    → Shows line (kept (cs, preview), 0) (erase_preview i)
erase_preview-Shows line cs preview i (wants, off, count, few, enough, plain, shown) =
    let n = length cs - preview in
    let (front, back) = kept_parts n cs plain in
    let size : length (drop n cs) ≡ preview = length-drop n cs ∙ omega arith in
    (
      wants,
      ap (λ s. s.active) (erase_characters-selection i.preview i.surface) ∙ off,
      refl,
      omega arith,
      omega arith,
      front,
      ap (λ k. type_bytes (erase_characters k i.surface).written []) (count ∙ sym size)
          ∙ erase_characters-written (drop n cs) (type_bytes (encode (take n cs)) line) i.surface
              (rw size few) back
              (shown
                ∙ ap (λ t. type_bytes (encode t) line) (sym (take-append-drop n cs))
                ∙ type_bytes-encode (take n cs) (drop n cs) line),
    )

-- A text that is written comes behind the characters.
write-shown :
    (line : Bytes) (cs new : List ℕ) (i : Ime)
    → type_bytes i.surface.written [] ≡ type_bytes (encode cs) line
    → IsPlain new
    → type_bytes (i.surface.written ++ utf16_to_utf8 (utf16 new)) []
      ≡ type_bytes (encode (cs ++ new)) line
write-shown line cs new i shown p =
    ap (λ t. type_bytes (i.surface.written ++ t) []) (utf16_to_utf8-utf16 new (plain-IsText new p))
    ∙ type_bytes-append i.surface.written (encode new) []
    ∙ ap (type_bytes (encode new)) shown
    ∙ sym (type_bytes-encode cs new line)

utf16_empty : (c : ℕ) (cs : List ℕ) → (length (utf16 (c ∷ cs)) == 0) ≡ false
unfolding utf16 units
utf16_empty c cs = ground arith

compose-eq :
    (text : List ℕ) (i : Ime)
    → i.wants_ime ≡ true
    → i.surface.selection.active ≡ false
    → handle_ime_set_preview_text text i ≡ show_preview text i
unfolding handle_ime_set_preview_text
compose-eq text i wants off =
    if_on i.wants_ime _ _ wants
    ∙ ap (λ s. show_preview text (record i { surface = s }))
        (replace_selection_inactive i.surface off)

show_preview_full :
    (c : ℕ) (cs : List ℕ) (i : Ime)
    → show_preview (utf16 (c ∷ cs)) i
      ≡ write (utf16_to_utf8 (utf16 (c ∷ cs))) (record (erase_preview i) {
        preview =
            if ltb 200 (utf16_code_point_count (utf16 (c ∷ cs)))
            then 0
            else utf16_code_point_count (utf16 (c ∷ cs));
      })
unfolding show_preview
show_preview_full c cs i = rw (utf16_empty c cs) refl

tracked_count :
    (cs : List ℕ)
    → IsPlain cs
    → (if ltb 200 (utf16_code_point_count (utf16 cs)) then 0 else utf16_code_point_count (utf16 cs))
      ≡ (if ltb 200 (length cs) then 0 else length cs)
tracked_count cs p = rw (utf16_code_point_count-utf16 cs (plain-IsText cs p)) refl

append_nil-Shows :
    (line : Bytes) (cs : List ℕ) (preview : ℕ) (i : Ime)
    → Shows line (cs, preview) i
    → Shows line (cs ++ [], preview) i
append_nil-Shows line cs preview i s =
    subst (λ t. Shows line (t, preview) i) (sym (append-nil cs)) s

show_preview-Shows :
    (line : Bytes) (old new : List ℕ) (preview : ℕ) (i : Ime)
    → Shows line (old, preview) i
    → IsPlain new
    → Shows line (compose_call (compose new) (old, preview)) (show_preview (utf16 new) i)
unfolding show_preview utf16
show_preview-Shows line old [] preview i s p =
    append_nil-Shows line (kept (old, preview)) 0 (erase_preview i)
      (erase_preview-Shows line old preview i s)
show_preview-Shows line old (c ∷ cs) preview i s p =
    let (wants, off, count, few, enough, plain, shown) = erase_preview-Shows line old preview i s in
    rw (show_preview_full c cs i) (
      wants,
      off,
      tracked_count (c ∷ cs) p,
      ground arith,
      ground (arith, length-append (kept (old, preview)) (c ∷ cs)),
      append-IsPlain (kept (old, preview)) (c ∷ cs) plain p,
      write-shown line (kept (old, preview)) (c ∷ cs) (erase_preview i) shown p,
    )

insert-eq :
    (text : List ℕ) (i : Ime)
    → i.wants_ime ≡ true
    → i.surface.selection.active ≡ false
    → insert_ime_text text i ≡ (if length text == 0 then i else write (utf16_to_utf8 text) i)
unfolding insert_ime_text
insert-eq text i wants off =
    if_or i.wants_ime (length text == 0) i _ wants
    ∙ ap
        (λ s. if length text == 0 then i else write (utf16_to_utf8 text) (record i { surface = s }))
        (replace_selection_inactive i.surface off)

insert-Shows :
    (line : Bytes) (cs new : List ℕ) (preview : ℕ) (i : Ime)
    → Shows line (cs, preview) i
    → IsPlain new
    → Shows line
        (cs ++ new, preview)
        (if length (utf16 new) == 0 then i else write (utf16_to_utf8 (utf16 new)) i)
unfolding utf16
insert-Shows line cs [] preview i s p = append_nil-Shows line cs preview i s
insert-Shows line cs (c ∷ new) preview i (wants, off, count, few, enough, plain, shown) p =
    rw (utf16_empty c new) (
      wants,
      off,
      count,
      few,
      omega (arith, length-append cs (c ∷ new)),
      append-IsPlain cs (c ∷ new) plain p,
      write-shown line cs (c ∷ new) i shown p,
    )

call-Shows :
    (call : Call) (line : Bytes) (c : Composed) (i : Ime)
    → Shows line c i
    → IsCall call
    → Shows line (compose_call call c) (run_call call i)
unfolding handle_ime_finish_preview
call-Shows (compose new) line (cs, preview) i s p =
    rw (compose-eq (utf16 new) i s.0 s.1) (show_preview-Shows line cs new preview i s p)
call-Shows (insert new) line (cs, preview) i s p =
    rw (insert-eq (utf16 new) i s.0 s.1) (insert-Shows line cs new preview i s p)
call-Shows finish line (cs, preview) i s p = erase_preview-Shows line cs preview i s

-- From a state without a selection and with the input method wanted, and from characters behind a
-- line the last ones of which may be a preview, calls of `SetPreviewText`, `InsertText` and
-- `FinishPreview` in any order, with texts of Unicode scalar values other than DEL, send bytes from
-- which a line editor that takes DEL as erasing the last character, and any other byte as itself,
-- ends with the characters that the calls mean behind that line: a text inserted comes behind the
-- characters, and a new preview or the end of one first takes back the last characters, as many as
-- the preview before had, or none if it had more than 200.
pub run_calls-Shows :
    (calls : List Call) (line : Bytes) (c : Composed) (i : Ime)
    → AreCalls calls
    → Shows line c i
    → Shows line (compose_calls calls c) (run_calls calls i)
run_calls-Shows [] line c i a s = s
run_calls-Shows (call ∷ calls) line c i a s =
    run_calls-Shows calls line (compose_call call c) (run_call call i) a.1
      (call-Shows call line c i s a.0)
