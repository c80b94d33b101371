-- ===== src/Utility/Base16.antt =====
-- `String::toBase16` of features/common4esl/src/esl/utility/String.cpp.
pub mod Decode
mod Tests
use open_esl.Prelude.{◌-◌, ℕ, ◌+◌, ◌/◌, ◌%◌, [], ◌∷◌, ◌++◌, ltb, if◌then◌else◌, Bytes}

-- A digit of `%x`, for a value below 16.
unfoldable pub hex_digit : ℕ → ℕ
hex_digit n = if ltb n 10 then b'0' + n else (b'a' - 10) + n

-- `%.2x` and `%02x` of a value below 256.
unfoldable pub hex_byte : ℕ → Bytes
unfolding hex_digit
hex_byte c = hex_digit (c / 16) ∷ hex_digit (c % 16) ∷ []

unfoldable pub to_base16 : Bytes → Bytes
unfolding hex_byte
to_base16 [] = []
to_base16 (c ∷ cs) = hex_byte c ++ to_base16 cs
