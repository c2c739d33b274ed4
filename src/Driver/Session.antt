-- ===== src/Driver/Session.antt =====
-- The state of the class `ExampleDriver`: what it does with input, with the password and with the
-- output of the local shell.
pub mod Secret
pub mod Trigger
use fish_term.Prelude.{
  ℕ, zero, suc, ◌+◌, ◌≡◌, Bool, true, false, ◌&&◌, ◌||◌, not, List, [], ◌∷◌, ◌++◌, Option, none,
  some, length, ltb, leb, ◌==◌, if◌then◌else◌, Bytes, codes,
}
use fish_term.Driver.Request.{
  SshRequest, Parsed, rejected, thrown, parsed, parse_ssh_command, trim_white, strip_prefix,
  split_first,
}

-- `Mode`
pub data Mode : Type 0 where
  local_shell awaiting_password remote_ssh : Mode

-- The fields of the driver. `output` is what `PushOutput` has emitted, `shell_input` what was written
-- to the local shell, and `ssh` what was written to the session, if there is one.
pub record Driver : Type 0 where
  pub mode : Mode
  pub pending_request : SshRequest
  pub pending_password : Bytes
  pub current_line : Bytes
  pub pending_escape : Bytes
  pub output : Bytes
  pub shell_input : Bytes
  pub ssh : Option Bytes

-- `SSHSession::connect`: `none` is a connection, and `some` an error's text.
abbrev pub Connect : Type 0
Connect = SshRequest → Bytes → Option Bytes

abbrev pub push_output : Bytes → Driver → Driver
push_output text d = record d { output = d.output ++ text }

abbrev pub write_to_local_shell : Bytes → Driver → Driver
write_to_local_shell text d = record d { shell_input = d.shell_input ++ text }

-- `FinishSshConnectLocked`
unfoldable pub finish_ssh_connect : Connect → Driver → Driver
finish_ssh_connect connect d = elim (connect d.pending_request d.pending_password) [
  | some error ↦
      write_to_local_shell (10 ∷ [])
        (record (push_output (codes "SSH connection failed: " ++ (error ++ 13 ∷ 10 ∷ [])) d) {
          mode = local_shell;
          pending_password = [];
          current_line = [];
        })
  | none ↦ record d { mode = remote_ssh; pending_password = []; current_line = []; ssh = some [] }
]

-- `pop_back`
abbrev pub pop_back : Bytes → Bytes
pop_back [] = []
pop_back (b ∷ []) = []
pop_back (b ∷ c ∷ cs) = b ∷ pop_back (c ∷ cs)

-- One byte of `HandlePasswordInputLocked`.
unfoldable pub password_byte : Connect → ℕ → Driver → Driver
unfolding finish_ssh_connect
password_byte connect b d =
    if b == 3
    then write_to_local_shell (10 ∷ []) (
        push_output (codes "^C" ++ 13 ∷ 10 ∷ [])
          (record d { pending_password = []; current_line = []; mode = local_shell }))
    else if b == 13 || b == 10
    then finish_ssh_connect connect (push_output (13 ∷ 10 ∷ []) d)
    else if b == 127 || b == 8
    then elim d.pending_password [
      | [] ↦ d
      | p ∷ ps ↦ push_output (8 ∷ 32 ∷ 8 ∷ []) (record d { pending_password = pop_back (p ∷ ps) })
    ]
    else if ltb b 0x20
    then d
    else push_output (b'*' ∷ []) (record d { pending_password = d.pending_password ++ b ∷ [] })

-- `HandlePasswordInputLocked`
unfoldable pub handle_password_input : Connect → Bytes → Driver → Driver
unfolding password_byte
handle_password_input connect [] d = d
handle_password_input connect (b ∷ bs) d =
    handle_password_input connect bs (password_byte connect b d)

-- `Write`
unfoldable pub write : Connect → Bytes → Driver → Driver
unfolding handle_password_input
write connect [] d = d
write connect (b ∷ bs) d = elim d.mode [
  | local_shell ↦ write_to_local_shell (b ∷ bs) d
  | awaiting_password ↦ handle_password_input connect (b ∷ bs) d
  | remote_ssh ↦ elim d.ssh [ none ↦ d | some sent ↦ record d { ssh = some (sent ++ b ∷ bs) } ]
]

-- `HandleSshTrigger`; `none` is the exception of `std::stoi`.
unfoldable pub handle_ssh_trigger : Bytes → Driver → Option Driver
unfolding trim_white parse_ssh_command
handle_ssh_trigger payload d = elim (parse_ssh_command (codes "ssh " ++ trim_white payload)) [
  | thrown ↦ none
  | rejected ↦ some (push_output (codes "Invalid SSH target." ++ 13 ∷ 10 ∷ []) d)
  | parsed request ↦ elim d.mode [
    | awaiting_password ↦ some d
    | remote_ssh ↦ some d
    | local_shell ↦ some (
        push_output (13 ∷ 10 ∷ codes "Password: ") (record d {
          pending_request = request;
          pending_password = [];
          current_line = [];
          mode = awaiting_password;
        }))
  ]
]

-- `HandlePromptTrigger`, from the prompt that `RenderPromptLocked` pushes.
unfoldable pub handle_prompt_trigger : Bytes → Driver → Driver
handle_prompt_trigger prompt d = elim d.mode [
  | local_shell ↦ push_output prompt (record d { current_line = [] })
  | awaiting_password ↦ d
  | remote_ssh ↦ d
]

-- `find` of a trigger: the text before it and that behind it.
unfoldable pub split_trigger : Bytes → Bytes → Option (Bytes × Bytes)
unfolding strip_prefix
split_trigger prefix [] = none
split_trigger prefix (b ∷ bs) = elim (strip_prefix prefix (b ∷ bs)) [
  | some behind ↦ some ([], behind)
  | none ↦ elim (split_trigger prefix bs) [
    | none ↦ none
    | some (before, behind) ↦ some (b ∷ before, behind)
  ]
]

abbrev pub ssh_trigger : Bytes
ssh_trigger = 27 ∷ codes "]633;example-ssh;"

abbrev pub prompt_trigger : Bytes
prompt_trigger = 27 ∷ codes "]633;example-prompt;"

abbrev pub is_awaiting_password : Mode → Bool
is_awaiting_password awaiting_password = true
is_awaiting_password mode = false

abbrev pub before_rest : Bytes → Option (Bytes × Driver) → Option (Bytes × Driver)
before_rest before none = none
before_rest before (some (visible, d)) = some (before ++ visible, d)

-- The first loop of `PushProcessedLocalOutput`, from the text at its cursor: the text that stays
-- visible. Each round but the last passes a trigger, so the bytes of the text are enough rounds.
unfoldable pub ssh_rounds : ℕ → Bytes → Driver → Option (Bytes × Driver)
unfolding handle_ssh_trigger split_trigger split_first
ssh_rounds zero text d = some (text, d)
ssh_rounds (suc fuel) text d = elim (split_trigger ssh_trigger text) [
  | none ↦ some (text, d)
  | some (before, behind) ↦ elim (split_first 7 behind) [
    | none ↦ some (before, record d { pending_escape = ssh_trigger ++ behind })
    | some (payload, rest) ↦ elim (handle_ssh_trigger payload d) [
      | none ↦ none
      | some after ↦ elim (is_awaiting_password after.mode) [
        | true ↦ some (before, after)
        | false ↦ before_rest before (ssh_rounds fuel rest after)
      ]
    ]
  ]
]

-- The second loop.
unfoldable pub prompt_rounds : ℕ → Bytes → Bytes → Driver → Option (Bytes × Driver)
unfolding handle_prompt_trigger split_trigger split_first
prompt_rounds zero prompt text d = some (text, d)
prompt_rounds (suc fuel) prompt text d = elim (split_trigger prompt_trigger text) [
  | none ↦ some (text, d)
  | some (before, behind) ↦ elim (split_first 7 behind) [
    | none ↦ some (before, record d { pending_escape = prompt_trigger ++ behind })
    | some (payload, rest) ↦
        before_rest before (prompt_rounds fuel prompt rest (handle_prompt_trigger prompt d))
  ]
]

-- `PushProcessedLocalOutput`; `none` is an exception.
unfoldable pub push_processed_local_output : Bytes → Bytes → Driver → Option Driver
unfolding ssh_rounds prompt_rounds
push_processed_local_output prompt [] d = some d
push_processed_local_output prompt (b ∷ bs) d =
    let text = d.pending_escape ++ b ∷ bs in
    elim (ssh_rounds (length text) text (record d { pending_escape = [] })) [
      | none ↦ none
      | some (visible, e) ↦ elim (prompt_rounds (length visible) prompt visible e) [
        | none ↦ none
        | some (shown, f) ↦ some (push_output shown f)
      ]
    ]
