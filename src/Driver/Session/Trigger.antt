-- ===== src/Driver/Session/Trigger.antt =====
-- The output of the local shell around a trigger.
use mathlib.Core.List.{append_assoc}
use fish_term.Prelude.{
  ℕ, zero, suc, ◌≡◌, refl, true, false, [], ◌∷◌, ◌++◌, none, some, length, ◌==◌, Bytes, codes,
  arith,
}
use fish_term.Driver.Request.{SshRequest, parsed, parse_ssh_command, trim_white, strip_prefix}
use fish_term.Driver.Request.Target.{IsWithout, split_first-without}
use fish_term.Driver.Session.{
  local_shell, awaiting_password, Driver, push_output, handle_ssh_trigger, split_trigger,
  ssh_trigger, ssh_rounds, prompt_rounds, push_processed_local_output,
}

strip_prefix_self : (p t : Bytes) → strip_prefix p (p ++ t) ≡ some t
unfolding strip_prefix
strip_prefix_self [] t = refl
strip_prefix_self (b ∷ p) t =
    let same : (b == b) ≡ true = ground arith in rw (same, strip_prefix) (strip_prefix_self p t)

strip_prefix-other :
    (a b : ℕ) (p t : Bytes) → (b == a) ≡ false → strip_prefix (a ∷ p) (b ∷ t) ≡ none
unfolding strip_prefix
strip_prefix-other a b p t h =
    let other : (a == b) ≡ false = ground arith in rw (other, strip_prefix) refl

-- The first trigger behind a text without its first byte.
split_trigger-first :
    (a : ℕ) (p before behind : Bytes)
    → IsWithout a before
    → split_trigger (a ∷ p) (before ++ (a ∷ (p ++ behind))) ≡ some (before, behind)
unfolding split_trigger
split_trigger-first a p [] behind w = rw (strip_prefix_self (a ∷ p) behind, split_trigger) refl
split_trigger-first a p (b ∷ before) behind w =
    rw (strip_prefix-other a b p (before ++ (a ∷ (p ++ behind))) w.0, split_trigger)
      (rw (split_trigger-first a p before behind w.1) refl)

split_trigger-none : (a : ℕ) (p text : Bytes) → IsWithout a text → split_trigger (a ∷ p) text ≡ none
unfolding split_trigger
split_trigger-none a p [] w = refl
split_trigger-none a p (b ∷ text) w =
    rw (strip_prefix-other a b p text w.0, split_trigger)
      (rw (split_trigger-none a p text w.1) refl)

prompt_rounds-none :
    (fuel : ℕ) (prompt text : Bytes) (d : Driver)
    → IsWithout 27 text
    → prompt_rounds fuel prompt text d ≡ some (text, d)
unfolding prompt_rounds
prompt_rounds-none zero prompt text d w = refl
prompt_rounds-none (suc fuel) prompt text d w =
    rw (split_trigger-none 27 (codes "]633;example-prompt;") text w, prompt_rounds) refl

-- The driver behind a request for a password.
abbrev pub asking : SshRequest → Driver → Driver
asking request d = push_output (13 ∷ 10 ∷ codes "Password: ") (record d {
  pending_request = request;
  pending_password = [];
  current_line = [];
  mode = awaiting_password;
})

handle_ssh_trigger-asks :
    (payload : Bytes) (d : Driver) (request : SshRequest)
    → d.mode ≡ local_shell
    → parse_ssh_command (codes "ssh " ++ trim_white payload) ≡ parsed request
    → handle_ssh_trigger payload d ≡ some (asking request d)
unfolding handle_ssh_trigger
handle_ssh_trigger-asks payload d request local request_read =
    rw (request_read, handle_ssh_trigger) (rw local refl)

ssh_rounds-asks :
    (fuel : ℕ) (before payload rest : Bytes) (d : Driver) (request : SshRequest)
    → d.mode ≡ local_shell
    → IsWithout 27 before
    → IsWithout 7 payload
    → parse_ssh_command (codes "ssh " ++ trim_white payload) ≡ parsed request
    → ssh_rounds (suc fuel) (before ++ (ssh_trigger ++ (payload ++ 7 ∷ rest))) d
      ≡ some (before, asking request d)
unfolding ssh_rounds
ssh_rounds-asks fuel before payload rest d request local w v request_read =
    rw
      (
        split_trigger-first 27 (codes "]633;example-ssh;") before (payload ++ 7 ∷ rest) w,
        ssh_rounds,
      )
      (rw (split_first-without 7 payload rest v)
        (rw (handle_ssh_trigger-asks payload d request local request_read) refl))

-- Both loops over a text that is not empty.
both_loops :
    (prompt : Bytes) (b : ℕ) (text shown visible : Bytes) (d e f : Driver)
    → d.pending_escape ≡ []
    → ssh_rounds (length (b ∷ text)) (b ∷ text) (record d { pending_escape = [] })
      ≡ some (visible, e)
    → prompt_rounds (length visible) prompt visible e ≡ some (shown, f)
    → push_processed_local_output prompt (b ∷ text) d ≡ some (push_output shown f)
unfolding push_processed_local_output
both_loops prompt b text shown visible d e f empty first second =
    rw (empty, push_processed_local_output) (rw first (rw second refl))

asked :
    (prompt before payload rest : Bytes) (d : Driver) (request : SshRequest)
    → d.mode ≡ local_shell
    → d.pending_escape ≡ []
    → IsWithout 27 before
    → IsWithout 7 payload
    → parse_ssh_command (codes "ssh " ++ trim_white payload) ≡ parsed request
    → push_processed_local_output prompt (before ++ (ssh_trigger ++ (payload ++ 7 ∷ rest))) d
      ≡ some (push_output before (asking request (record d { pending_escape = [] })))
asked prompt [] payload rest d request local empty w v read =
    both_loops prompt 27 (codes "]633;example-ssh;" ++ (payload ++ 7 ∷ rest)) [] [] d
      (asking request (record d { pending_escape = [] }))
      (asking request (record d { pending_escape = [] })) empty
      (ssh_rounds-asks (length (codes "]633;example-ssh;" ++ (payload ++ 7 ∷ rest))) [] payload rest
        (record d { pending_escape = [] }) request local tt v read)
      (prompt_rounds-none 0 prompt [] _ tt)
asked prompt (b ∷ before) payload rest d request local empty w v read =
    both_loops prompt b (before ++ (ssh_trigger ++ (payload ++ 7 ∷ rest))) (b ∷ before) (b ∷ before)
      d (asking request (record d { pending_escape = [] }))
      (asking request (record d { pending_escape = [] })) empty
      (ssh_rounds-asks (length (before ++ (ssh_trigger ++ (payload ++ 7 ∷ rest)))) (b ∷ before)
        payload rest (record d { pending_escape = [] }) request local w v read)
      (prompt_rounds-none (length (b ∷ before)) prompt (b ∷ before) _ w)

-- In the mode of the local shell with nothing pending, a chunk of a text without ESC, a trigger whose
-- payload has no BEL and a target that can be read, and any text behind it, asks for the password. But
-- the prompt for the password stands before the text that came before the trigger, and the driver is
-- the same whatever text is behind the trigger: that text is neither put out nor kept, and the bytes
-- pending, the password and the input line are empty, and nothing goes to the shell or the session.
pub push_processed_local_output-asks :
    (prompt before payload : Bytes) (d : Driver) (request : SshRequest)
    → d.mode ≡ local_shell
    → d.pending_escape ≡ []
    → IsWithout 27 before
    → IsWithout 7 payload
    → parse_ssh_command (codes "ssh " ++ trim_white payload) ≡ parsed request
    → (after : Driver) × ((rest : Bytes)
        → push_processed_local_output prompt (before ++ (ssh_trigger ++ (payload ++ 7 ∷ rest))) d
          ≡ some after)
      × (after.mode ≡ awaiting_password)
      × (after.pending_request ≡ request)
      × (after.output ≡ d.output ++ (13 ∷ 10 ∷ (codes "Password: " ++ before)))
      × (after.pending_escape ≡ [])
      × (after.pending_password ≡ [])
      × (after.current_line ≡ [])
      × (after.shell_input ≡ d.shell_input)
      × (after.ssh ≡ d.ssh)
push_processed_local_output-asks prompt before payload d request local empty w v read = (
  push_output before (asking request (record d { pending_escape = [] })),
  λ rest. asked prompt before payload rest d request local empty w v read,
  refl,
  refl,
  append_assoc d.output (13 ∷ 10 ∷ codes "Password: ") before,
  refl,
  refl,
  refl,
  refl,
  refl,
)
