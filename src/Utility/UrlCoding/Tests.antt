-- ===== src/Utility/UrlCoding/Tests.antt =====
-- Runs of the URL coding functions, and the theorem at a concrete input.
use open_esl.Utility.UrlCoding.{to_url_encoded, from_url_encoded}
use open_esl.Utility.UrlCoding.Decoded.{from_url_encoded-to_url_encoded}
use open_esl.Prelude.{some, none, [], ◌∷◌, Bytes, ◌≡◌, refl, arith}

-- "a b" and the byte 0xe4
abbrev bytes : Bytes
bytes = b'a' ∷ b' ' ∷ b'b' ∷ 0xe4 ∷ []

to_url_encoded_runs :
    to_url_encoded bytes ≡ b'a' ∷ b'%' ∷ b'2' ∷ b'0' ∷ b'b' ∷ b'%' ∷ b'f' ∷ b'f' ∷ []
unfolding to_url_encoded
to_url_encoded_runs = refl

from_url_encoded_refused : from_url_encoded (b'%' ∷ b'g' ∷ b'0' ∷ []) ≡ none
unfolding from_url_encoded
from_url_encoded_refused = refl

from_url_encoded-to_url_encoded_example :
    from_url_encoded (to_url_encoded bytes) ≡ some (b'a' ∷ b' ' ∷ b'b' ∷ 0xff ∷ [])
from_url_encoded-to_url_encoded_example = from_url_encoded-to_url_encoded bytes (omega arith)
