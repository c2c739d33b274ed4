-- ===== src/Host/Ime.antt =====
-- The handlers of the input method in napi_init.cpp: the text that it inserts or previews, the keys
-- that it sends, and the text around the cursor that it asks for.
pub mod Preview
pub mod Calls
use fish_term.Prelude.{
  ℕ, zero, suc, ◌+◌, ◌-◌, ◌≤◌, ◌≡◌, Bool, true, false, ◌&&◌, ◌||◌, not, List, [], ◌∷◌, ◌++◌, length,
  take, drop, min, ltb, leb, ◌==◌, if◌then◌else◌, ℤ, pos, negsuc, pos_part, max_ℤ, min_ℤ, leb_ℤ,
  Bytes, codes,
}
use fish_term.Host.Utf16.{utf8_to_utf16, utf16_to_utf8, is_low}
use fish_term.Terminal.Mouse.{repeat}
use fish_term.Terminal.Selection.{start_selection, update_selection}
use fish_term.Host.Surface.{
  Surface, write_input, unselect, delete_key, erase_selected, at_start, at_end, replace_selection,
  select_step,
}

-- The fields of a host with a terminal that the handlers read or set.
pub record Ime : Type 0 where
  pub surface : Surface
  pub wants_ime : Bool
  pub shift_held : Bool
  pub preview : ℕ

abbrev pub write : Bytes → Ime → Ime
write sent i = record i { surface = write_input sent i.surface }

-- `InsertImeText`
unfoldable pub insert_ime_text : List ℕ → Ime → Ime
unfolding replace_selection utf16_to_utf8
insert_ime_text text i =
    if not i.wants_ime || length text == 0
    then i
    else write (utf16_to_utf8 text) (record i { surface = replace_selection i.surface })

-- `DeleteImeForward` and `DeleteImeBackward`, for `backward` false and true.
unfoldable pub delete_ime : Bool → ℤ → Ime → Ime
unfolding erase_selected repeat
delete_ime backward count i =
    let s = i.surface in
    let at_edge = if backward then at_end s else at_start s in
    let deletes = repeat (pos_part count) (delete_key backward) in
    if not i.wants_ime || leb_ℤ count (pos 0)
    then i
    else if s.selection.active && not s.alt_screen
    then (if at_edge
        then record i { surface = unselect (erase_selected backward s) }
        else record i { surface = write_input deletes (unselect s) })
    else write deletes i

-- `HandleImeEnterKey`
unfoldable pub handle_ime_enter_key : Ime → Ime
handle_ime_enter_key i = if not i.wants_ime then i else write (13 ∷ []) i

-- `InputMethod_Direction`
pub data Direction : Type 0 where
  no_direction up down left right : Direction

abbrev pub d_row : Direction → ℤ
d_row up = negsuc 0
d_row down = pos 1
d_row other = pos 0

abbrev pub d_col : Direction → ℤ
d_col left = negsuc 0
d_col right = pos 1
d_col other = pos 0

abbrev pub is_direction : Direction → Bool
is_direction no_direction = false
is_direction other = true

abbrev pub arrow_sequence : Direction → Bytes
arrow_sequence no_direction = []
arrow_sequence up = 27 ∷ codes "[A"
arrow_sequence down = 27 ∷ codes "[B"
arrow_sequence right = 27 ∷ codes "[C"
arrow_sequence left = 27 ∷ codes "[D"

-- `HandleImeMoveCursor`
unfoldable pub handle_ime_move_cursor : Direction → Ime → Ime
unfolding select_step
handle_ime_move_cursor d i =
    if not i.wants_ime
    then i
    else if i.shift_held
    then (if is_direction d
        then record i { surface = select_step (d_row d) (d_col d) i.surface }
        else i)
    else write (arrow_sequence d) (record i { surface = unselect i.surface })

-- `HandleImeExtendAction` for `IME_EXTEND_ACTION_SELECT_ALL`; the other actions do nothing.
unfoldable pub select_all : Ime → Ime
unfolding start_selection update_selection
select_all i =
    let v = i.surface.view in
    record i {
      surface = record i.surface {
        selection =
            update_selection v (pos v.rows) (pos v.cols) (start_selection v (pos 0) (pos 0) false);
      };
    }

-- `Utf16CodePointCount`: the units that are no low surrogates.
unfoldable pub utf16_code_point_count : List ℕ → ℕ
utf16_code_point_count [] = 0
utf16_code_point_count (u ∷ rest) = (if is_low u then 0 else 1) + utf16_code_point_count rest

-- The loops that erase a preview of up to `IME_MAX_PREVIEW_ERASE` code points.
unfoldable pub erase_characters : ℕ → Surface → Surface
unfolding repeat
erase_characters count s =
    if ltb 0 count && leb count 200 then write_input (repeat count (127 ∷ [])) s else s

abbrev pub erase_preview : Ime → Ime
erase_preview i = record i { surface = erase_characters i.preview i.surface; preview = 0 }

-- The part of `HandleImeSetPreviewText` behind the selection.
unfoldable pub show_preview : List ℕ → Ime → Ime
unfolding erase_characters utf16_to_utf8 utf16_code_point_count
show_preview text i =
    let count = utf16_code_point_count text in
    if length text == 0
    then erase_preview i
    else write (utf16_to_utf8 text)
        (record (erase_preview i) { preview = if ltb 200 count then 0 else count })

-- `HandleImeSetPreviewText`
unfoldable pub handle_ime_set_preview_text : List ℕ → Ime → Ime
unfolding replace_selection show_preview
handle_ime_set_preview_text text i =
    if not i.wants_ime
    then record i { preview = 0 }
    else show_preview text (record i { surface = replace_selection i.surface })

-- `HandleImeFinishPreview`
unfoldable pub handle_ime_finish_preview : Ime → Ime
unfolding erase_characters
handle_ime_finish_preview i = erase_preview i

-- `CaptureImeSurroundingText`, from the line of the cursor and its column.
unfoldable pub capture_ime_surrounding_text : Bytes → ℤ → List ℕ × ℕ
unfolding utf8_to_utf16
capture_ime_surrounding_text line col =
    let text = utf8_to_utf16 line in
    if length line == 0
    then ([], 0)
    else (text, pos_part (max_ℤ (pos 0) (min_ℤ col (pos (length text)))))

-- `FillImeTextSlice`
unfoldable pub fill_ime_text_slice : Bytes → ℤ → ℤ → Bool → List ℕ
unfolding capture_ime_surrounding_text
fill_ime_text_slice line col number before_cursor =
    let (surrounding, cursor) = capture_ime_surrounding_text line col in
    let count = pos_part (max_ℤ (pos 0) number) in
    let start = if ltb count cursor then cursor - count else 0 in
    if before_cursor
    then take (cursor - start) (drop start surrounding)
    else take count (drop (min cursor (length surrounding)) surrounding)
