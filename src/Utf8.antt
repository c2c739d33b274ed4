-- ===== src/Utf8.antt =====
-- The UTF-8 encoder `AppendUtf8` of libghostty_ohos/src/main/cpp/terminal/terminal.cpp, which the
-- terminal uses wherever it hands out text. Bytes are numbers; a cast to `char` keeps 8 bits.
pub mod RoundTrip
use Prim.Native.Nat.{bit_or}
use fish_term.Prelude.{ℕ, ◌/◌, ◌%◌, List, [], ◌∷◌, ◌++◌, leb, if◌then◌else◌}

-- `static_cast<char>`
abbrev pub byte : ℕ → ℕ
byte x = x % 256

-- `0x80 | (x & 0x3F)`
abbrev pub continuation : ℕ → ℕ
continuation x = byte (bit_or 0x80 (x % 64))

-- The bytes that `AppendUtf8` pushes for a code point.
unfoldable pub utf8 : ℕ → List ℕ
utf8 codepoint =
    if leb codepoint 0x7F
    then byte codepoint ∷ []
    else if leb codepoint 0x7FF
    then byte (bit_or 0xC0 (codepoint / 64)) ∷ continuation codepoint ∷ []
    else if leb codepoint 0xFFFF
    then byte (bit_or 0xE0 (codepoint / 4096))
      ∷ continuation (codepoint / 64)
      ∷ continuation codepoint
      ∷ []
    else byte (bit_or 0xF0 (codepoint / 262144))
      ∷ continuation (codepoint / 4096)
      ∷ continuation (codepoint / 64)
      ∷ continuation codepoint
      ∷ []

-- The text of a sequence of code points.
unfoldable pub encode : List ℕ → List ℕ
encode [] = []
encode (c ∷ cs) = utf8 c ++ encode cs
