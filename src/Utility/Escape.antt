-- ===== src/Utility/Escape.antt =====
-- `String::toEscape` and `String::fromEscape` with their default callbacks and tables, in
-- features/common4esl/src/esl/utility/String.cpp.
pub mod Unchanged
mod Tests
use open_esl.Prelude.{
  ℕ, ◌+◌, ◌&&◌, ◌||◌, Option, none, some, [], ◌∷◌, ◌++◌, ◌==◌, leb, if◌then◌else◌, Bytes,
}

-- `asciiToEscapeSequences`
unfoldable pub to_escape_sequence : ℕ → Bytes
to_escape_sequence c =
    if c == b'\\'
    then b'\\' ∷ b'\\' ∷ []
    else if c == 7
    then b'\\' ∷ b'a' ∷ []
    else if c == 8
    then b'\\' ∷ b'b' ∷ []
    else if c == 12
    then b'\\' ∷ b'f' ∷ []
    else if c == 10
    then b'\\' ∷ b'n' ∷ []
    else if c == 13
    then b'\\' ∷ b'r' ∷ []
    else if c == 9
    then b'\\' ∷ b't' ∷ []
    else if c == 11
    then b'\\' ∷ b'v' ∷ []
    else if c == 0
    then b'\\' ∷ b'0' ∷ []
    else c ∷ []

unfoldable pub to_escape : Bytes → (ℕ → Bytes) → Bytes
to_escape [] to_escape_sequence_function = []
to_escape (c ∷ cs) to_escape_sequence_function =
    to_escape_sequence_function c ++ to_escape cs to_escape_sequence_function

-- `asciiFromEscapeSequences`, looked up at a whole text. The keys are C literals: the second
-- character is the control character itself, and the last key ends at its zero byte, so that it is
-- the backslash alone.
unfoldable pub from_escape_sequences : Bytes → Option ℕ
from_escape_sequences [] = none
from_escape_sequences (a ∷ []) = if a == b'\\' then some 0 else none
from_escape_sequences (a ∷ (b ∷ [])) =
    if a == b'\\' && (b == b'\\' || (leb 7 b && leb b 13)) then some b else none
from_escape_sequences (a ∷ (b ∷ (c ∷ cs))) = none

-- `fromEscapeSequence` looks up all that is left of the text, from the iterator to the end. A hit
-- takes the iterator to the end, since the key is that text; otherwise it moves by one.
unfoldable pub from_escape : Bytes → Bytes
unfolding from_escape_sequences
from_escape [] = []
from_escape (c ∷ cs) = elim (from_escape_sequences (c ∷ cs)) [
  | some character ↦ character ∷ []
  | none ↦ c ∷ from_escape cs
]
