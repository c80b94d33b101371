-- ===== src/Utility/Escape/Tests.antt =====
-- Runs of the escape functions, and the theorems at concrete inputs.
use open_esl.Utility.Escape.{to_escape_sequence, to_escape, from_escape}
use open_esl.Utility.Escape.Unchanged.{from_escape-to_escape}
use open_esl.Prelude.{[], ◌∷◌, Bytes, ◌≡◌, refl}

-- A line break and "ab".
abbrev text : Bytes
text = 10 ∷ b'a' ∷ b'b' ∷ []

-- A backslash alone at the end becomes a zero byte.
from_escape_last : from_escape (b'a' ∷ b'\\' ∷ []) ≡ b'a' ∷ 0 ∷ []
unfolding from_escape
from_escape_last = refl

from_escape-to_escape_example :
    from_escape (to_escape text to_escape_sequence) ≡ b'\\' ∷ b'n' ∷ b'a' ∷ b'b' ∷ []
unfolding to_escape to_escape_sequence
from_escape-to_escape_example = from_escape-to_escape (10 ∷ []) b'a' b'b' refl refl refl refl
