-- ===== src/Driver/Request.antt =====
-- `Trim`, `StartsWith`, `ParseSshCommand` and `SanitizeLogChunk` of example_driver.cpp.
pub mod Target
use fish_term.Prelude.{
  ℕ, zero, suc, ◌+◌, ◌*◌, ◌^◌, ◌≡◌, Bool, true, false, ◌&&◌, ◌||◌, not, List, [], ◌∷◌, ◌++◌, Option,
  none, some, length, drop, ltb, leb, ◌==◌, if◌then◌else◌, Bytes, codes, is_white, is_digit,
  read_decimal, hex_byte,
}

-- What stands for a byte in the log.
unfoldable pub log_byte : ℕ → Bytes
log_byte b =
    if b == 13
    then codes "\\r"
    else if b == 10
    then codes "\\n"
    else if b == 27
    then codes "\\e"
    else if ltb b 0x20 || b == 0x7F
    then codes "\\x" ++ hex_byte true b
    else b ∷ []

-- `SanitizeLogChunk`
unfoldable pub sanitize_log_chunk : Bytes → Bytes
unfolding log_byte
sanitize_log_chunk [] = []
sanitize_log_chunk (b ∷ bs) = log_byte b ++ sanitize_log_chunk bs

-- The loops of `Trim`.
unfoldable pub skip_front : Bytes → Bytes
skip_front [] = []
skip_front (b ∷ bs) = elim (is_white b) [ true ↦ skip_front bs | false ↦ b ∷ bs ]

unfoldable pub skip_back : Bytes → Bytes
skip_back [] = []
skip_back (b ∷ bs) = elim (skip_back bs) [
  | [] ↦ if is_white b then [] else b ∷ []
  | c ∷ cs ↦ b ∷ c ∷ cs
]

-- `Trim`
unfoldable pub trim_white : Bytes → Bytes
unfolding skip_front skip_back
trim_white text = skip_back (skip_front text)

-- `StartsWith`, with the rest behind the prefix.
unfoldable pub strip_prefix : Bytes → Bytes → Option Bytes
strip_prefix [] text = some text
strip_prefix (p ∷ ps) [] = none
strip_prefix (p ∷ ps) (b ∷ bs) = elim (p == b) [ true ↦ strip_prefix ps bs | false ↦ none ]

-- `SSHRequest`
pub record SshRequest : Type 0 where
  pub user : Bytes
  pub host : Bytes
  pub port : ℕ

-- The value of `ParseSshCommand`: false, true with a request, or the exception of `std::stoi`.
pub data Parsed : Type 0 where
  rejected thrown : Parsed
  parsed : SshRequest → Parsed

-- The parts before and behind the first byte `b`.
unfoldable pub split_first : ℕ → Bytes → Option (Bytes × Bytes)
split_first b [] = none
split_first b (c ∷ cs) = elim (c == b) [
  | true ↦ some ([], cs)
  | false ↦ elim (split_first b cs) [
    | none ↦ none
    | some (before, behind) ↦ some (c ∷ before, behind)
  ]
]

-- The parts before and behind the last byte `b`.
unfoldable pub split_last : ℕ → Bytes → Option (Bytes × Bytes)
split_last b [] = none
split_last b (c ∷ cs) = elim (split_last b cs) [
  | some (before, behind) ↦ some (c ∷ before, behind)
  | none ↦ if c == b then some ([], cs) else none
]

unfoldable pub all_digits : Bytes → Bool
all_digits [] = true
all_digits (b ∷ bs) = is_digit b && all_digits bs

-- The user and the target behind it.
unfoldable pub split_user : Bytes → Bytes × Bytes
unfolding split_first
split_user target = elim (split_first b'@' target) [
  | none ↦ (codes "root", target)
  | some (user, rest) ↦ (user, rest)
]

abbrev pub finish_request : Bytes → Bytes → ℕ → Parsed
finish_request user host port = elim (trim_white host) [
  | [] ↦ rejected
  | b ∷ bs ↦ parsed (record { user = user; host = b ∷ bs; port = port })
]

-- The port behind the last colon, if it is a number; `std::stoi` throws on one that does not fit an
-- `int`.
unfoldable pub read_port : Bytes → Bytes → Parsed
unfolding split_last all_digits trim_white
read_port user target = elim (split_last b':' target) [
  | none ↦ finish_request user target 22
  | some (host, []) ↦ finish_request user target 22
  | some (host, b ∷ bs) ↦
      (let n = (read_decimal 0 (b ∷ bs)).0 in
        if not (all_digits (b ∷ bs))
        then finish_request user target 22
        else if leb (2 ^ 31) n
        then thrown
        else finish_request user host n)
]

-- `ParseSshCommand`, on a request with the port 22.
unfoldable pub parse_ssh_command : Bytes → Parsed
unfolding trim_white strip_prefix split_user read_port
parse_ssh_command line = elim (strip_prefix (codes "ssh ") (trim_white line)) [
  | none ↦ rejected
  | some rest ↦ elim (trim_white rest) [
    | [] ↦ rejected
    | b ∷ bs ↦ (let (user, target) = split_user (b ∷ bs) in read_port user target)
  ]
]
