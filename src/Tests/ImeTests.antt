-- ===== src/Tests/ImeTests.antt =====
-- Runs of the input method's handlers and of the frames, and the theorems applied at them.
use fish_term.Prelude.{◌≡◌, refl, true, false, List, [], ◌∷◌, pos, arith}
use fish_term.Terminal.Selection.{Selection}
use fish_term.Utf8.{encode}
use fish_term.Host.Surface.{Surface}
use fish_term.Host.Ime.{Ime, handle_ime_set_preview_text}
use fish_term.Host.Ime.Calls.{
  Call, compose, insert, finish, run_calls, compose_calls, Shows, run_calls-Shows,
}
use fish_term.Host.Frames.{Frames, Scene, request_render, on_vsync_frame}
use fish_term.Host.Frames.Drawn.{run_frames, request_render-drawn, run_frames-end}

abbrev nothing_selected : Selection
nothing_selected = record {
  active = false;
  app_owned = false;
  start_row = pos 0;
  start_col = 0;
  end_row = pos 0;
  end_col = 0;
}

abbrev surface : Surface
surface = record {
  view = record { cols = 6; rows = 2; top = 0; grid = [] };
  cursor_row = pos 0;
  cursor_col = pos 0;
  alt_screen = false;
  selection = nothing_selected;
  written = [];
}

abbrev ime : Ime
ime = record { surface = surface; wants_ime = true; shift_held = false; preview = 0 }

-- A preview of two characters is erased by two keys before the next one is shown.
preview_replaced :
    (handle_ime_set_preview_text
      (b'k' ∷ [])
      (handle_ime_set_preview_text (b'n' ∷ b'i' ∷ []) ime)).surface.written
    ≡ b'n' ∷ b'i' ∷ 127 ∷ 127 ∷ b'k' ∷ []
unfolding handle_ime_set_preview_text
preview_replaced = refl

-- `n`, a letter inserted before the preview ends, `ni`, and then the character that stands for it.
abbrev calls : List Call
calls =
    compose (b'n' ∷ [])
    ∷ insert (b'x' ∷ [])
    ∷ compose (b'n' ∷ b'i' ∷ [])
    ∷ finish
    ∷ insert (0x4F60 ∷ [])
    ∷ []

-- The letter inserted is taken back in place of the preview.
calls_mean : compose_calls calls ([], 0) ≡ (b'n' ∷ 0x4F60 ∷ [], 0)
calls_mean = refl

run_calls-Shows_example : Shows [] (compose_calls calls ([], 0)) (run_calls calls ime)
unfolding encode
run_calls-Shows_example =
    run_calls-Shows calls [] ([], 0) ime
      (
        (((omega arith, refl), λ e. omega arith), tt),
        (
          (((omega arith, refl), λ e. omega arith), tt),
          (
            (
              ((omega arith, refl), λ e. omega arith),
              (((omega arith, refl), λ e. omega arith), tt),
            ),
            (tt, ((((omega arith, refl), λ e. omega arith), tt), tt)),
          ),
        ),
      )
      (refl, refl, refl, omega arith, omega arith, tt, refl)

abbrev idle : Frames
idle = record {
  has_vsync = true;
  pending = false;
  dirty = false;
  trailing = 0;
  last_blink = 0;
  presented = false;
  drawn = 0;
}

abbrev still : Scene
still = record { blinks = false; drawable = true }

abbrev blinking : Scene
blinking = record { blinks = true; drawable = true }

-- A blinking cursor is drawn after 250 ms.
blink_waits : (on_vsync_frame blinking 349999999 (record idle { last_blink = 100 })).drawn ≡ 0
unfolding on_vsync_frame
blink_waits = refl

blink_draws : (on_vsync_frame blinking 350000000 (record idle { last_blink = 100 })).drawn ≡ 1
unfolding on_vsync_frame
blink_draws = refl

request_render-drawn_example :
    ((request_render idle).pending ≡ true)
    × (let after = on_vsync_frame still 16000000 (request_render idle) in
        (after.drawn ≡ 1) × (after.presented ≡ true) × (after.dirty ≡ false))
request_render-drawn_example = request_render-drawn still 16000000 idle refl refl

abbrev trailing_two : Frames
trailing_two = record idle { pending = true; trailing = 2 }

run_frames-end_example : (run_frames 3 still 16000000 trailing_two).pending ≡ false
run_frames-end_example = run_frames-end 3 still 16000000 trailing_two refl (ground arith)
