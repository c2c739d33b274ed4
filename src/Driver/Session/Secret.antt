-- ===== src/Driver/Session/Secret.antt =====
-- What shows of a password while it is typed.
use fish_term.Prelude.{
  ℕ, suc, ◌≡◌, refl, ap, Bool, true, false, ◌&&◌, ◌||◌, not, inl, inr, [], ◌∷◌, ◌++◌, length,
  length-append, ltb, ◌==◌, if◌then◌else◌, Bool-cases, Bytes, codes, arith,
}
use fish_term.Driver.Session.{
  Driver, Connect, push_output, write_to_local_shell, pop_back, password_byte,
  handle_password_input, local_shell,
}

-- The bytes that the password takes in.
abbrev pub is_typed : ℕ → Bool
is_typed b =
    not (b == 3) && not (b == 13 || b == 10) && not (b == 127 || b == 8) && not (ltb b 0x20)

abbrev pub mask : ℕ → ℕ
mask b = if is_typed b then b'*' else b

-- Two inputs of the same length without Enter that differ in typed bytes only.
abbrev pub IsMaskedAlike : Bytes → Bytes → Type 0
IsMaskedAlike [] [] = Unit
IsMaskedAlike [] (b ∷ t) = ⊥
IsMaskedAlike (a ∷ s) [] = ⊥
IsMaskedAlike (a ∷ s) (b ∷ t) =
    (mask a ≡ mask b) × ((a == 13 || a == 10) ≡ false) × IsMaskedAlike s t

-- What shows of a driver: its output, the input of the local shell, and the number of bytes of the
-- password.
abbrev pub IsAlike : Driver → Driver → Type 0
IsAlike d e =
    (d.output ≡ e.output)
    × (d.shell_input ≡ e.shell_input)
    × (length d.pending_password ≡ length e.pending_password)

abbrev typed : ℕ → Driver → Driver
typed b d = push_output (b'*' ∷ []) (record d { pending_password = d.pending_password ++ b ∷ [] })

password_byte-typed :
    (connect : Connect) (b : ℕ) (d : Driver)
    → is_typed b ≡ true
    → password_byte connect b d ≡ typed b d
unfolding password_byte
password_byte-typed connect b d h =
    let cancel : (b == 3) ≡ false = ground arith in
    let enter : (b == 13 || b == 10) ≡ false = ground arith in
    let erase : (b == 127 || b == 8) ≡ false = ground arith in
    let control : ltb b 0x20 ≡ false = ground arith in
    rw cancel (rw enter (rw erase (rw control refl)))

typed-IsAlike : (a b : ℕ) (d e : Driver) → IsAlike d e → IsAlike (typed a d) (typed b e)
typed-IsAlike a b d e (output, shell, count) = (
  ap (λ t. t ++ b'*' ∷ []) output,
  shell,
  omega
      (arith, length-append d.pending_password (a ∷ []), length-append e.pending_password (b ∷ [])),
)

length-pop_back : (b : ℕ) (bs : Bytes) → length (pop_back (b ∷ bs)) ≡ length bs
length-pop_back b [] = refl
length-pop_back b (c ∷ cs) = ap suc (length-pop_back c cs)

abbrev cancelled : Driver → Driver
cancelled d = write_to_local_shell (10 ∷ []) (
    push_output (codes "^C" ++ 13 ∷ 10 ∷ [])
      (record d { pending_password = []; current_line = []; mode = local_shell }))

abbrev erased : Driver → Driver
erased d = elim d.pending_password [
  | [] ↦ d
  | p ∷ ps ↦ push_output (8 ∷ 32 ∷ 8 ∷ []) (record d { pending_password = pop_back (p ∷ ps) })
]

erased-IsAlike : (d e : Driver) → IsAlike d e → IsAlike (erased d) (erased e)
erased-IsAlike d e (output, shell, count) =
    go d.pending_password e.pending_password d e output shell count count
  where
    go :
        (p q : Bytes) (d e : Driver)
        → d.output ≡ e.output
        → d.shell_input ≡ e.shell_input
        → length d.pending_password ≡ length e.pending_password
        → length p ≡ length q
        → IsAlike
            (elim p [
              | [] ↦ d
              | p ∷ ps ↦
                  push_output (8 ∷ 32 ∷ 8 ∷ []) (record d { pending_password = pop_back (p ∷ ps) })
            ])
            (elim q [
              | [] ↦ e
              | p ∷ ps ↦
                  push_output (8 ∷ 32 ∷ 8 ∷ []) (record e { pending_password = pop_back (p ∷ ps) })
            ])
    go [] [] d e o s c h = (o, s, c)
    go [] (q ∷ qs) d e o s c h = absurd (omega arith)
    go (p ∷ ps) [] d e o s c h = absurd (omega arith)
    go (p ∷ ps) (q ∷ qs) d e o s c h = (
      ap (λ t. t ++ 8 ∷ 32 ∷ 8 ∷ []) o,
      s,
      omega (arith, length-pop_back p ps, length-pop_back q qs),
    )

-- A byte that is neither typed nor Enter.
abbrev controlled : ℕ → Driver → Driver
controlled b d = if b == 3 then cancelled d else if b == 127 || b == 8 then erased d else d

password_byte-controlled :
    (connect : Connect) (b : ℕ) (d : Driver)
    → is_typed b ≡ false
    → (b == 13 || b == 10) ≡ false
    → password_byte connect b d ≡ controlled b d
unfolding password_byte
password_byte-controlled connect b d h enter = elim (Bool-cases (b == 3)) [
  | inl cancel ↦ rw cancel refl
  | inr other ↦ rw other (
      rw enter (elim (Bool-cases (b == 127 || b == 8)) [
        | inl erase ↦ rw erase refl
        | inr more ↦ rw more (let control : ltb b 0x20 ≡ true = ground arith in rw control refl)
      ]))
]

controlled-IsAlike :
    (b : ℕ) (d e : Driver) → IsAlike d e → IsAlike (controlled b d) (controlled b e)
controlled-IsAlike b d e alike = go (b == 3) (b == 127 || b == 8)
  where
    go :
        (x y : Bool)
        → IsAlike
            (if x then cancelled d else if y then erased d else d)
            (if x then cancelled e else if y then erased e else e)
    go true y =
        (ap (λ t. t ++ (codes "^C" ++ 13 ∷ 10 ∷ [])) alike.0, ap (λ t. t ++ 10 ∷ []) alike.1, refl)
    go false true = erased-IsAlike d e alike
    go false false = alike

password_byte-IsAlike :
    (connect : Connect) (a b : ℕ) (d e : Driver)
    → mask a ≡ mask b
    → (a == 13 || a == 10) ≡ false
    → IsAlike d e
    → IsAlike (password_byte connect a d) (password_byte connect b e)
password_byte-IsAlike connect a b d e same enter alike = elim (Bool-cases (is_typed a)) [
  | inl typed_a ↦
      (let typed_b : is_typed b ≡ true = ground arith in
        rw (password_byte-typed connect a d typed_a)
          (rw (password_byte-typed connect b e typed_b) (typed-IsAlike a b d e alike)))
  | inr control ↦
      (let equal : a ≡ b = ground arith in
        let control_b : is_typed b ≡ false = ground arith in
        let enter_b : (b == 13 || b == 10) ≡ false = ground arith in
        rw (password_byte-controlled connect a d control enter) (
          rw (password_byte-controlled connect b e control_b enter_b)
            (rw equal (controlled-IsAlike b d e alike))))
]

-- While a password is typed, without Enter, what shows of the driver does not tell which bytes it is
-- made of: inputs of the same length that differ in typed bytes only leave the same output, the same
-- input of the local shell and passwords of the same length.
pub handle_password_input-IsAlike :
    (connect : Connect) (s t : Bytes) (d e : Driver)
    → IsMaskedAlike s t
    → IsAlike d e
    → IsAlike (handle_password_input connect s d) (handle_password_input connect t e)
unfolding handle_password_input
handle_password_input-IsAlike connect [] [] d e m alike = alike
handle_password_input-IsAlike connect [] (b ∷ t) d e m alike = absurd m
handle_password_input-IsAlike connect (a ∷ s) [] d e m alike = absurd m
handle_password_input-IsAlike connect (a ∷ s) (b ∷ t) d e m alike =
    handle_password_input-IsAlike connect s t (password_byte connect a d)
      (password_byte connect b e) m.2 (password_byte-IsAlike connect a b d e m.0 m.1 alike)
