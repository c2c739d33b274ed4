-- ===== src/Driver/Request/Target.antt =====
-- `ParseSshCommand` reads the target that it is given.
use mathlib.Core.List.{append-nil}
use fish_term.Prelude.{
  ℕ, ◌^◌, ◌≡◌, refl, sym, ap, ◌∙◌, true, false, [], ◌∷◌, ◌++◌, none, some, leb, ◌==◌, if◌then◌else◌,
  Bytes, codes, is_white, AreDigits, decimal-AreDigits, decimal, decimal_front, read_decimal,
  read_decimal-decimal, arith,
}
use fish_term.Driver.Request.{
  skip_front, skip_back, trim_white, strip_prefix, parsed, thrown, split_first, split_last,
  all_digits, split_user, finish_request, read_port, parse_ssh_command,
}

-- Text without white space.
abbrev pub IsClean : Bytes → Type 0
IsClean [] = Unit
IsClean (b ∷ bs) = (is_white b ≡ false) × IsClean bs

-- Text without a byte.
abbrev pub IsWithout : ℕ → Bytes → Type 0
IsWithout a [] = Unit
IsWithout a (b ∷ bs) = ((b == a) ≡ false) × IsWithout a bs

append-IsClean : (s t : Bytes) → IsClean s → IsClean t → IsClean (s ++ t)
append-IsClean [] t p q = q
append-IsClean (b ∷ s) t p q = (p.0, append-IsClean s t p.1 q)

skip_back-clean : (s : Bytes) → IsClean s → skip_back s ≡ s
unfolding skip_back
skip_back-clean [] p = refl
skip_back-clean (b ∷ []) p = rw (p.0) refl
skip_back-clean (b ∷ c ∷ cs) p = rw (skip_back-clean (c ∷ cs) p.1) refl

skip_back-append :
    (s t : Bytes) (c : ℕ) (cs : Bytes) → skip_back t ≡ c ∷ cs → skip_back (s ++ t) ≡ s ++ c ∷ cs
unfolding skip_back
skip_back-append [] t c cs e = e
skip_back-append (b ∷ []) t c cs e = rw (e, skip_back) refl
skip_back-append (b ∷ a ∷ s) t c cs e = rw (skip_back-append (a ∷ s) t c cs e, skip_back) refl

skip_front-clean : (b : ℕ) (bs : Bytes) → is_white b ≡ false → skip_front (b ∷ bs) ≡ b ∷ bs
unfolding skip_front
skip_front-clean b bs h = rw (h, skip_front) refl

trim_white-clean : (b : ℕ) (bs : Bytes) → IsClean (b ∷ bs) → trim_white (b ∷ bs) ≡ b ∷ bs
unfolding trim_white
trim_white-clean b bs p = ap skip_back (skip_front-clean b bs p.0) ∙ skip_back-clean (b ∷ bs) p

pub split_first-without :
    (a : ℕ) (s rest : Bytes) → IsWithout a s → split_first a (s ++ a ∷ rest) ≡ some (s, rest)
unfolding split_first
split_first-without a [] rest w =
    let same : (a == a) ≡ true = ground arith in rw (same, split_first) refl
split_first-without a (b ∷ s) rest w =
    rw (w.0, split_first) (rw (split_first-without a s rest w.1) refl)

split_last-none : (a : ℕ) (s : Bytes) → IsWithout a s → split_last a s ≡ none
unfolding split_last
split_last-none a [] w = refl
split_last-none a (b ∷ s) w = rw (split_last-none a s w.1, split_last) (rw (w.0) refl)

split_last-without :
    (a : ℕ) (s rest : Bytes) → IsWithout a rest → split_last a (s ++ a ∷ rest) ≡ some (s, rest)
unfolding split_last
split_last-without a [] rest w =
    let same : (a == a) ≡ true = ground arith in
    rw (split_last-none a rest w, split_last) (rw same refl)
split_last-without a (b ∷ s) rest w = rw (split_last-without a s rest w, split_last) refl

all_digits-AreDigits : (s : Bytes) → AreDigits s → all_digits s ≡ true
unfolding all_digits
all_digits-AreDigits [] d = refl
all_digits-AreDigits (b ∷ s) d = rw (d.0) (all_digits-AreDigits s d.1)

digits-IsClean : (s : Bytes) → AreDigits s → IsClean s
digits-IsClean [] d = tt
digits-IsClean (b ∷ s) (digit, d) = (ground arith, digits-IsClean s d)

digits-IsWithout : (s : Bytes) → AreDigits s → IsWithout b':' s
digits-IsWithout [] d = tt
digits-IsWithout (b ∷ s) (digit, d) = (ground arith, digits-IsWithout s d)

read_decimal-all : (n : ℕ) → (read_decimal 0 (decimal n)).0 ≡ n
read_decimal-all n =
    ap (λ t. (read_decimal 0 t).0) (sym (append-nil (decimal n)))
    ∙ ap (λ r. r.0) (read_decimal-decimal n [])

finish_request-clean :
    (user : Bytes) (b : ℕ) (host : Bytes) (port : ℕ)
    → IsClean (b ∷ host)
    → finish_request user (b ∷ host) port
      ≡ parsed (record { user = user; host = b ∷ host; port = port })
finish_request-clean user b host port p = rw (trim_white-clean b host p, finish_request) refl

read_port_number :
    (user target host : Bytes) (d : ℕ) (ds : Bytes) (port : ℕ)
    → split_last b':' target ≡ some (host, d ∷ ds)
    → all_digits (d ∷ ds) ≡ true
    → (read_decimal 0 (d ∷ ds)).0 ≡ port
    → read_port user target ≡ (if leb (2 ^ 31) port then thrown else finish_request user host port)
unfolding read_port
read_port_number user target host d ds port split digits number =
    rw (split, read_port) (rw digits (rw number refl))

read_port-decimal :
    (user : Bytes) (b : ℕ) (host : Bytes) (port : ℕ)
    → IsClean (b ∷ host)
    → read_port user ((b ∷ host) ++ (b':' ∷ decimal port)) ≡ (
        if leb (2 ^ 31) port
        then thrown
        else parsed (record { user = user; host = b ∷ host; port = port }))
read_port-decimal user b host port p =
    let (d, ds, e, digit) = decimal_front port in
    let digits = decimal-AreDigits port in
    read_port_number user ((b ∷ host) ++ (b':' ∷ decimal port)) (b ∷ host) d ds port
      (split_last-without b':' (b ∷ host) (decimal port) (digits-IsWithout (decimal port) digits)
        ∙ ap (λ t. some (b ∷ host, t)) e)
      (ap all_digits (sym e) ∙ all_digits-AreDigits (decimal port) digits)
      (ap (λ t. (read_decimal 0 t).0) (sym e) ∙ read_decimal-all port)
    ∙ ap (λ r. if leb (2 ^ 31) port then thrown else r) (finish_request-clean user b host port p)

-- The target behind `ssh `: a user, and the rest.
abbrev target_text : Bytes → Bytes → Bytes
target_text user rest = user ++ (b'@' ∷ rest)

target-IsClean : (user rest : Bytes) → IsClean user → IsClean rest → IsClean (target_text user rest)
target-IsClean user rest cu cr = append-IsClean user (b'@' ∷ rest) cu (refl, cr)

trim_white-line :
    (b : ℕ) (bs : Bytes)
    → IsClean (b ∷ bs)
    → trim_white (codes "ssh " ++ (b ∷ bs)) ≡ codes "ssh " ++ (b ∷ bs)
unfolding trim_white
trim_white-line b bs p =
    ap skip_back (skip_front-clean b's' (codes "sh " ++ (b ∷ bs)) refl)
    ∙ skip_back-append (codes "ssh ") (b ∷ bs) b bs (skip_back-clean (b ∷ bs) p)

parse_line :
    (b : ℕ) (bs user target : Bytes)
    → IsClean (b ∷ bs)
    → split_user (b ∷ bs) ≡ (user, target)
    → parse_ssh_command (codes "ssh " ++ (b ∷ bs)) ≡ read_port user target
unfolding parse_ssh_command strip_prefix
parse_line b bs user target p split =
    rw (trim_white-line b bs p, parse_ssh_command) (rw (trim_white-clean b bs p) (rw split refl))

split_user-target :
    (user rest : Bytes) → IsWithout b'@' user → split_user (target_text user rest) ≡ (user, rest)
unfolding split_user
split_user-target user rest w = rw (split_first-without b'@' user rest w, split_user) refl

parse_target :
    (user rest : Bytes)
    → IsClean user
    → IsWithout b'@' user
    → IsClean rest
    → parse_ssh_command (codes "ssh " ++ target_text user rest) ≡ read_port user rest
parse_target [] rest cu wu cr =
    parse_line b'@' rest [] rest (refl, cr) (split_user-target [] rest wu)
parse_target (b ∷ user) rest cu wu cr =
    parse_line b (target_text user rest) (b ∷ user) rest (target-IsClean (b ∷ user) rest cu cr)
      (split_user-target (b ∷ user) rest wu)

-- `ssh user@host:port` is read as that user, host and port, for a user and a host without white space,
-- a user without `@` and a host that is not empty, if the port fits an `int`. For a larger port
-- `std::stoi` throws.
pub parse_ssh_command-target :
    (user : Bytes) (b : ℕ) (host : Bytes) (port : ℕ)
    → IsClean user
    → IsWithout b'@' user
    → IsClean (b ∷ host)
    → parse_ssh_command (codes "ssh " ++ (user ++ (b'@' ∷ ((b ∷ host) ++ (b':' ∷ decimal port)))))
      ≡ (if leb (2 ^ 31) port
          then thrown
          else parsed (record { user = user; host = b ∷ host; port = port }))
parse_ssh_command-target user b host port cu wu ch =
    parse_target user ((b ∷ host) ++ (b':' ∷ decimal port)) cu wu (
      append-IsClean (b ∷ host) (b':' ∷ decimal port) ch
        (refl, digits-IsClean (decimal port) (decimal-AreDigits port)))
    ∙ read_port-decimal user b host port ch
