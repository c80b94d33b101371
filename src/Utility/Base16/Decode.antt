-- ===== src/Utility/Base16/Decode.antt =====
-- The text of `String::toBase16` has two digits for each byte and determines the bytes.
use open_esl.Prelude.{
  ℕ, ◌+◌, ◌*◌, ◌-◌, ◌<◌, ◌/◌, ◌%◌, [], ◌∷◌, leb, if◌then◌else◌, ◌&&◌, Bytes, IsByte, All, length,
  ◌≡◌, refl, ap, arith, Option, none, some,
}
use open_esl.Utility.Base16.{hex_digit, hex_byte, to_base16}

-- The value of a hexadecimal digit, of either case.
unfoldable pub digit_value : ℕ → Option ℕ
digit_value c =
    if leb b'0' c && leb c b'9'
    then some (c - b'0')
    else if leb b'a' c && leb c b'f'
    then some (c + 10 - b'a')
    else if leb b'A' c && leb c b'F'
    then some (c + 10 - b'A')
    else none

pub digit_value-hex_digit : (n : ℕ) → n < 16 → digit_value (hex_digit n) ≡ some n
unfolding digit_value hex_digit
digit_value-hex_digit n h = ground arith

-- The bytes that pairs of digits stand for.
pub decode : Bytes → Option Bytes
decode [] = some []
decode (a ∷ []) = none
decode (a ∷ (b ∷ cs)) = both (digit_value a) (digit_value b) (decode cs)
  where
    both : Option ℕ → Option ℕ → Option Bytes → Option Bytes
    both (some hi) (some lo) (some bytes) = some ((hi * 16 + lo) ∷ bytes)
    both _ _ _ = none

-- Bytes give two digits each, and pairs of digits read back are the bytes.
decode-to_base16 :
    (str : Bytes)
    → All IsByte str
    → (decode (to_base16 str) ≡ some str) × (length (to_base16 str) ≡ 2 * length str)
unfolding decode to_base16 hex_byte
decode-to_base16 [] h = (refl, omega arith)
decode-to_base16 (c ∷ cs) h =
    let (ih, len) = decode-to_base16 cs h.1 in
    (
      rw
          (
            digit_value-hex_digit (c / 16) (omega arith),
            digit_value-hex_digit (c % 16) (omega arith),
            ih,
          )
          (ap (λ b. some (b ∷ cs)) (omega arith)),
      omega (arith, len),
    )
