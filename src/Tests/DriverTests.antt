-- ===== src/Tests/DriverTests.antt =====
-- Runs of the example driver, and the theorems applied at concrete inputs.
use fish_term.Prelude.{
  Bytes, ◌^◌, ◌≡◌, refl, [], ◌∷◌, ◌++◌, leb, ◌==◌, length, hex_byte, hex_digit, if◌then◌else◌, none,
  some, codes, decimal,
}
use fish_term.Driver.Request.{
  SshRequest, thrown, parsed, parse_ssh_command, sanitize_log_chunk, trim_white,
}
use fish_term.Driver.Request.Target.{parse_ssh_command-target}
use fish_term.Driver.Session.{
  Driver, Connect, local_shell, awaiting_password, ssh_trigger, prompt_trigger,
  handle_password_input, write, push_processed_local_output,
}
use fish_term.Driver.Session.Secret.{IsAlike, handle_password_input-IsAlike}
use fish_term.Driver.Session.Trigger.{push_processed_local_output-asks}

log_text : sanitize_log_chunk (27 ∷ b'[' ∷ 7 ∷ 10 ∷ []) ≡ codes "\\e[\\x07\\n"
unfolding sanitize_log_chunk hex_byte hex_digit
log_text = refl

no_user :
    parse_ssh_command (codes "ssh host")
    ≡ parsed (record { user = codes "root"; host = codes "host"; port = 22 })
unfolding parse_ssh_command
no_user = refl

parse_ssh_command-target_example :
    parse_ssh_command
      (codes "ssh " ++ (codes "me" ++ (b'@' ∷ (codes "box" ++ (b':' ∷ decimal 2222)))))
    ≡ (if leb (2 ^ 31) 2222
        then thrown
        else parsed (record { user = codes "me"; host = codes "box"; port = 2222 }))
parse_ssh_command-target_example =
    parse_ssh_command-target (codes "me") b'b' (codes "ox") 2222 (refl, (refl, tt))
      (refl, (refl, tt)) (refl, (refl, (refl, tt)))

abbrev box : SshRequest
box = record { user = codes "me"; host = codes "box"; port = 22 }

abbrev driver : Driver
driver = record {
  mode = local_shell;
  pending_request = box;
  pending_password = [];
  current_line = [];
  pending_escape = [];
  output = [];
  shell_input = [];
  ssh = none;
}

abbrev asking : Driver
asking = record driver { mode = awaiting_password }

-- A host that takes the passwords of two bytes.
abbrev connect : Connect
connect request password = if length password == 2 then none else some (codes "denied")

login : (write connect (b'a' ∷ b'x' ∷ 127 ∷ b'b' ∷ 13 ∷ []) asking).ssh ≡ some []
unfolding write
login = refl

denied :
    (write connect (b'a' ∷ 13 ∷ []) asking).output
    ≡ b'*' ∷ 13 ∷ 10 ∷ (codes "SSH connection failed: denied" ++ 13 ∷ 10 ∷ [])
unfolding write
denied = refl

handle_password_input-IsAlike_example :
    IsAlike
      (handle_password_input connect (b'a' ∷ 127 ∷ b'b' ∷ []) asking)
      (handle_password_input connect (b'x' ∷ 127 ∷ b'y' ∷ []) asking)
handle_password_input-IsAlike_example =
    handle_password_input-IsAlike connect (b'a' ∷ 127 ∷ b'b' ∷ []) (b'x' ∷ 127 ∷ b'y' ∷ []) asking
      asking (refl, refl, (refl, refl, (refl, refl, tt))) (refl, refl, refl)

prompt_pushed :
    push_processed_local_output (codes "$ ") (codes "ok" ++ (prompt_trigger ++ 7 ∷ [])) driver
    ≡ some (record driver { output = codes "$ ok" })
unfolding push_processed_local_output
prompt_pushed = refl

box_target : parse_ssh_command (codes "ssh " ++ trim_white (codes "me@box")) ≡ parsed box
unfolding parse_ssh_command trim_white
box_target = refl

push_processed_local_output-asks_example :
    (after : Driver) × ((rest : Bytes)
      → push_processed_local_output
          (codes "$ ")
          (codes "hi" ++ (ssh_trigger ++ (codes "me@box" ++ 7 ∷ rest)))
          driver
        ≡ some after)
    × (after.mode ≡ awaiting_password)
    × (after.pending_request ≡ box)
    × (after.output ≡ 13 ∷ 10 ∷ (codes "Password: " ++ codes "hi"))
    × (after.pending_escape ≡ [])
    × (after.pending_password ≡ [])
    × (after.current_line ≡ [])
    × (after.shell_input ≡ [])
    × (after.ssh ≡ none)
push_processed_local_output-asks_example =
    push_processed_local_output-asks (codes "$ ") (codes "hi") (codes "me@box") driver box refl refl
      (refl, (refl, tt)) (refl, (refl, (refl, (refl, (refl, (refl, tt)))))) box_target
