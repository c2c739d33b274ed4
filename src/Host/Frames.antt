-- ===== src/Host/Frames.antt =====
-- The frames of a surface in napi_init.cpp: `RequestRender`, `RequestVsyncFrame`, the callback of the
-- vertical sync, `DrainPendingFrame` and `DestroyVsync`.
pub mod Drawn
use fish_term.Prelude.{
  ℕ, zero, suc, ◌+◌, ◌-◌, ◌/◌, ◌%◌, ◌^◌, Bool, true, false, ◌&&◌, ◌||◌, not, ltb, leb, ◌==◌,
  if◌then◌else◌,
}

-- The fields that the frames read or set; `drawn` counts the calls of `drawFrame`.
pub record Frames : Type 0 where
  pub has_vsync : Bool
  pub pending : Bool
  pub dirty : Bool
  pub trailing : ℕ
  pub last_blink : ℕ
  pub presented : Bool
  pub drawn : ℕ

-- What a tick finds: a renderer whose cursor blinks, and a renderer, a terminal and a surface that is
-- ready.
pub record Scene : Type 0 where
  pub blinks : Bool
  pub drawable : Bool

-- `RequestVsyncFrame`: a request is made if none is pending.
unfoldable pub request_vsync_frame : Frames → Frames
request_vsync_frame f = if not f.has_vsync then f else record f { pending = true }

-- `RequestRender`
unfoldable pub request_render : Frames → Frames
unfolding request_vsync_frame
request_render f = request_vsync_frame (record f { dirty = true })

-- Phase 1 of `OnVsyncTick`: the flags, with whether there is something to draw and whether more frames
-- are needed.
unfoldable pub consume_flags : Frames → Bool × (Bool × Frames)
consume_flags f =
    if f.dirty
    then (true, (false, record f { dirty = false; trailing = 2 }))
    else if ltb 0 f.trailing
    then (true, (ltb 0 (f.trailing - 1), record f { trailing = f.trailing - 1 }))
    else (false, (false, f))

-- Phase 2: the blinking cursor, for a time in nanoseconds. Times are 64-bit numbers.
unfoldable pub blink_due : ℕ → Frames → Bool
blink_due timestamp f =
    f.last_blink == 0 || leb 250 ((timestamp / 1000000 + 2 ^ 64 - f.last_blink) % 2 ^ 64)

abbrev pub draw : Bool → Scene → Frames → Frames
draw should scene f =
    if should && scene.drawable then record f { drawn = f.drawn + 1; presented = true } else f

unfoldable pub finish_tick : Scene → ℕ → Bool → Bool → Frames → Frames
unfolding blink_due request_vsync_frame
finish_tick scene timestamp should more f =
    let blinking = scene.blinks && blink_due timestamp f in
    let ready = if blinking then record f { last_blink = timestamp / 1000000 } else f in
    let shown = draw (should || blinking) scene ready in
    if more || scene.blinks then request_vsync_frame shown else shown

-- `OnVsyncTick`, behind the wheel.
unfoldable pub on_vsync_tick : Scene → ℕ → Frames → Frames
unfolding consume_flags finish_tick
on_vsync_tick scene timestamp f =
    let (should, (more, consumed)) = consume_flags f in
    finish_tick scene timestamp should more consumed

-- `OnVsyncFrameCB`
unfoldable pub on_vsync_frame : Scene → ℕ → Frames → Frames
unfolding on_vsync_tick
on_vsync_frame scene timestamp f = on_vsync_tick scene timestamp (record f { pending = false })

-- `DrainPendingFrame`
unfoldable pub drain_pending_frame : Frames → Bool × Frames
drain_pending_frame f = (f.presented, record f { presented = false })

-- `DestroyVsync`
unfoldable pub destroy_vsync : Frames → Frames
destroy_vsync f = if f.has_vsync then record f { has_vsync = false; pending = false } else f
