-- ===== src/Host/Dispatch/Outcome.antt =====
-- What becomes of a pressed key.
use fish_term.Prelude.{
  ℕ, ◌≤◌, ◌<◌, ◌≡◌, Bool, true, false, ◌&&◌, not, [], ◌++◌, if◌then◌else◌, Bytes,
}
use fish_term.Terminal.Mouse.{repeat}
use fish_term.Terminal.Selection.{Selection}
use fish_term.Host.Surface.{Surface, delete_key}
use fish_term.Host.Dispatch.{Host}

-- What `after` has received since `before`: up to 200 keys that delete the selected text, and the
-- sequence, through the native sink if it takes it, unless the deletion is all that the key does.
abbrev pub IsDelivered : (Bytes → Bool) → Bytes → Host → Host → Type 0
IsDelivered sink sequence before after =
    (count : ℕ) × (backward : Bool) × (typed : Bool) × (count ≤ 200)
    × (typed ≡ false → 0 < count)
    × (after.surface.written
        ≡ before.surface.written
          ++ (repeat count (delete_key backward)
              ++ (if typed && not (sink sequence) then sequence else [])))
    × (after.driver ≡ before.driver ++ (if typed && sink sequence then sequence else []))

abbrev pub IsTyped : (Bytes → Bool) → Bytes → Host → Bool × Host → Type 0
IsTyped sink sequence before (taken, after) =
    (taken ≡ true)
    × (after.surface.selection.active ≡ false)
    × IsDelivered sink sequence before after
