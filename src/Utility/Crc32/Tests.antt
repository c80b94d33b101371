-- ===== src/Utility/Crc32/Tests.antt =====
-- The checksum of a known text, and the theorems at concrete inputs.
use Prim.Native.Nat.{bit_xor}
use open_esl.Prelude.{◌≡◌, refl, [], ◌∷◌, arith, Bytes}
use open_esl.Utility.Crc32.{all_ones, push_data, push_loop, push_byte, calculate}
use open_esl.Utility.Crc32.Bitwise.{shift_in, push_data-shift_in}

-- "123456789"
abbrev digits : Bytes
digits = 49 ∷ 50 ∷ 51 ∷ 52 ∷ 53 ∷ 54 ∷ 55 ∷ 56 ∷ 57 ∷ []

check_value : calculate digits 0 ≡ 0xcbf43926
unfolding calculate push_data push_loop push_byte
check_value = refl

push_data-shift_in_example :
    push_data (49 ∷ 50 ∷ []) 0 ≡ bit_xor (shift_in (49 ∷ 50 ∷ []) (bit_xor 0 all_ones)) all_ones
push_data-shift_in_example = push_data-shift_in (49 ∷ 50 ∷ []) 0 (omega arith, (omega arith, tt))
