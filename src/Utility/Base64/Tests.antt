-- ===== src/Utility/Base64/Tests.antt =====
-- Runs of the Base64 functions, and the theorem at a concrete input.
use open_esl.Prelude.{true, [], ◌∷◌, Bytes, ◌≡◌, refl, arith}
use open_esl.Utility.Base64.{base64, base64url, to_base64, from_base64}
use open_esl.Utility.Base64.RoundTrip.{from_base64-to_base64}

abbrev bytes : Bytes
bytes = 0xfb ∷ 0x00 ∷ 0xff ∷ 0x41 ∷ []

-- "+wD/QQ=="
to_base64_runs :
    to_base64 bytes base64 true ≡ b'+' ∷ b'w' ∷ b'D' ∷ b'/' ∷ b'Q' ∷ b'Q' ∷ b'=' ∷ b'=' ∷ []
unfolding to_base64
to_base64_runs = refl

-- Two line breaks of one kind in a row end the text; one is skipped.
from_base64_runs : from_base64 (b'Q' ∷ 10 ∷ b'Q' ∷ 10 ∷ 10 ∷ b'Q' ∷ []) true ≡ 0x41 ∷ []
unfolding from_base64
from_base64_runs = refl

from_base64-to_base64_example : from_base64 (to_base64 bytes base64url true) true ≡ bytes
from_base64-to_base64_example = from_base64-to_base64 bytes base64url true true (omega arith)
