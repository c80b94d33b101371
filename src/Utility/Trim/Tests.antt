-- ===== src/Utility/Trim/Tests.antt =====
-- Runs of `String::trim`.
use open_esl.Prelude.{[], ◌∷◌, Bytes, ◌≡◌, refl}
use open_esl.Utility.Trim.{trim}

abbrev padded : Bytes
padded = b' ' ∷ b'a' ∷ b' ' ∷ b'b' ∷ b' ' ∷ b' ' ∷ []

trim_runs : trim padded b' ' ≡ b'a' ∷ b' ' ∷ b'b' ∷ []
unfolding trim
trim_runs = refl
