-- ===== src/Tests/ReplyTests.antt =====
-- Runs of the mouse reports and of the replies of terminal.cpp.
use fish_term.Prelude.{
  ℕ, ◌≡◌, ◌≢◌, refl, Bool, true, false, List, [], ◌∷◌, ◌++◌, Option, none, some, ℤ, pos, negsuc,
  Bytes, codes, decimal, replicate, get_elem?, if◌then◌else◌, ltb_ℤ, arith,
}
use fish_term.Theme.{default_theme}
use fish_term.Terminal.Mouse.{
  Modes, has_tracking, clamp_cell, scrolled, sent, wheel_scroll, report_mouse,
}
use fish_term.Terminal.Mouse.Reports.{report, read_sgr, report_mouse-read_sgr}
use fish_term.Terminal.Replies.{
  osc_color_reply, osc_palette_reply, resolve_kitty_color_query, xt_get_t_cap_reply,
}
use fish_term.Terminal.Replies.Capabilities.{lookup_capability}
use fish_term.Terminal.Replies.Colours.{channels, read_osc, read_osc_palette, read_osc-reply}
use fish_term.Terminal.Replies.Answers.{read_capability, read_capability-reply}

abbrev modes : Modes
modes = record {
  alt_screen = true;
  app_cursor_keys = false;
  mouse_tracking = false;
  mode_1000 = true;
  mode_1002 = false;
  mode_1003 = false;
  sgr_mouse = true;
}

run_wheel : wheel_scroll modes 80 24 (negsuc 0) (pos 100) (pos 3) ≡ sent (27 ∷ codes "[<64;80;3M")
unfolding wheel_scroll decimal
run_wheel = refl

run_wheel_keys :
    wheel_scroll (record modes { mode_1000 = false }) 80 24 (pos 2) (pos 1) (pos 1)
    ≡ sent (27 ∷ codes "[B" ++ 27 ∷ codes "[B")
unfolding wheel_scroll
run_wheel_keys = refl

run_wheel_primary :
    wheel_scroll (record modes { alt_screen = false }) 80 24 (pos 2) (pos 1) (pos 1)
    ≡ scrolled (pos 2)
unfolding wheel_scroll
run_wheel_primary = refl

run_report : report_mouse modes 80 24 (pos 5) (negsuc 3) 0 false ≡ some (27 ∷ codes "[<0;5;1m")
unfolding report_mouse decimal
run_report = refl

report_mouse-read_sgr_example :
    (s : Bytes) × (report_mouse modes 80 24 (pos 7) (pos 3) 0 true ≡ some s)
    × ((rest : Bytes)
        → read_sgr (s ++ rest)
          ≡ some (report 0 (clamp_cell (pos 7) 80) (clamp_cell (pos 3) 24) true, rest))
unfolding has_tracking
report_mouse-read_sgr_example =
    report_mouse-read_sgr modes 80 24 (pos 7) (pos 3) 0 true refl refl refl

run_osc : osc_color_reply 11 0xFF1E2A3F true ≡ 27 ∷ codes "]11;rgb:1e/2a/3f" ++ 7 ∷ []
unfolding osc_color_reply decimal fish_term.Prelude.hex_byte fish_term.Prelude.hex_digit
run_osc = refl

read_osc-reply_example :
    (read_osc (osc_color_reply 11 0xFF1E2A3F true) ≡ some (11, channels 0xFF1E2A3F))
    × (read_osc_palette (osc_palette_reply 11 0xFF1E2A3F true) ≡ some (11, channels 0xFF1E2A3F))
read_osc-reply_example = read_osc-reply 11 0xFF1E2A3F true

run_unknown : lookup_capability (codes "zz") ≡ none
unfolding lookup_capability
run_unknown = refl

read_capability-reply_example :
    read_capability (xt_get_t_cap_reply (codes "436f") (codes "256") true)
    ≡ some (codes "436f", some (codes "256"))
read_capability-reply_example =
    read_capability-reply (codes "436f") (codes "256") true (ground arith) (ground arith)

-- Spaces and a sign in front of the number are read too, as `strtol` does.
run_kitty : resolve_kitty_color_query (codes " +1") default_theme ≡ some (codes "rgb:cc/00/00")
unfolding resolve_kitty_color_query default_theme fish_term.Prelude.hex_byte
    fish_term.Prelude.hex_digit
run_kitty = refl
