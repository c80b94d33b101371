-- ===== src/Utility/Base16/Tests.antt =====
-- A run of `String::toBase16`.
use open_esl.Prelude.{[], ◌∷◌, Bytes, ◌≡◌, refl}
use open_esl.Utility.Base16.{to_base16}

abbrev two_bytes : Bytes
two_bytes = 0x1f ∷ 0xa0 ∷ []

to_base16_runs : to_base16 two_bytes ≡ b'1' ∷ b'f' ∷ b'a' ∷ b'0' ∷ []
unfolding to_base16
to_base16_runs = refl
