-- ===== src/Host/Frames/Drawn.antt =====
-- A request is drawn, and the frames come to an end.
use fish_term.Prelude.{ℕ, zero, suc, ◌+◌, ◌<◌, ◌≡◌, true, false, inl, inr, Bool-cases, arith}
use fish_term.Host.Frames.{Frames, Scene, request_vsync_frame, request_render, on_vsync_frame}

-- The display asks for a callback, and the callback draws what was requested: on a surface that can be
-- drawn one frame more is drawn and presented, and the request is done.
pub request_render-drawn :
    (scene : Scene) (timestamp : ℕ) (f : Frames)
    → f.has_vsync ≡ true
    → scene.drawable ≡ true
    → ((request_render f).pending ≡ true)
      × (let after = on_vsync_frame scene timestamp (request_render f) in
          (after.drawn ≡ f.drawn + 1) × (after.presented ≡ true) × (after.dirty ≡ false))
unfolding request_render on_vsync_frame request_vsync_frame
request_render-drawn scene timestamp f vsync drawable = ground arith

-- The callbacks that follow one another while one is pending, up to `n` of them.
abbrev pub run_frames : ℕ → Scene → ℕ → Frames → Frames
run_frames zero scene timestamp f = f
run_frames (suc n) scene timestamp f = elim f.pending [
  | false ↦ f
  | true ↦ run_frames n scene timestamp (on_vsync_frame scene timestamp f)
]

-- A frame that asks for another one has a trailing redraw less to do.
frame_again :
    (scene : Scene) (timestamp : ℕ) (f : Frames)
    → scene.blinks ≡ false
    → (on_vsync_frame scene timestamp f).pending ≡ true
    → (on_vsync_frame scene timestamp f).trailing < f.trailing
unfolding on_vsync_frame
frame_again scene timestamp f still again = ground arith

run_frames_idle :
    (n : ℕ) (scene : Scene) (timestamp : ℕ) (f : Frames)
    → f.pending ≡ false
    → (run_frames n scene timestamp f).pending ≡ false
run_frames_idle zero scene timestamp f idle = idle
run_frames_idle (suc n) scene timestamp f idle = rw (idle, run_frames) idle

-- Without a blinking cursor and without another request the callbacks come to an end: one more than
-- the trailing redraws are enough.
pub run_frames-end :
    (n : ℕ) (scene : Scene) (timestamp : ℕ) (f : Frames)
    → scene.blinks ≡ false
    → f.trailing < n
    → (run_frames n scene timestamp f).pending ≡ false
run_frames-end zero scene timestamp f still few = absurd (omega arith)
run_frames-end (suc n) scene timestamp f still few = elim (Bool-cases f.pending) [
  | inr done ↦ run_frames_idle (suc n) scene timestamp f done
  | inl more ↦
      rw (more, run_frames)
        (elim (Bool-cases (on_vsync_frame scene timestamp f).pending) [
          | inr done ↦ run_frames_idle n scene timestamp (on_vsync_frame scene timestamp f) done
          | inl again ↦
              run_frames-end n scene timestamp (on_vsync_frame scene timestamp f) still
                (omega (arith, frame_again scene timestamp f still again))
        ])
]

-- A frame that draws new content asks for no other one, unless the cursor blinks: the two trailing
-- redraws that it sets wait for the next request.
pub content_frame-waits :
    (scene : Scene) (timestamp : ℕ) (f : Frames)
    → scene.blinks ≡ false
    → f.dirty ≡ true
    → ((on_vsync_frame scene timestamp f).trailing ≡ 2)
      × ((on_vsync_frame scene timestamp f).pending ≡ false)
unfolding on_vsync_frame
content_frame-waits scene timestamp f still new = ground arith
