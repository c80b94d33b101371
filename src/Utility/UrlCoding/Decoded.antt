-- ===== src/Utility/UrlCoding/Decoded.antt =====
-- What the two functions make of each byte together.
use open_esl.Prelude.{
  ℕ, ◌<◌, ◌+◌, ◌*◌, ◌/◌, ◌%◌, true, false, ◌||◌, some, [], ◌∷◌, ◌++◌, map, ◌==◌, ltb, if◌then◌else◌,
  ◌≡◌, refl, ap, arith, All, Bytes, IsByte, inl, inr, Bool-cases,
}
use open_esl.Utility.Base16.{hex_digit, hex_byte}
use open_esl.Utility.Base16.Decode.{digit_value-hex_digit}
use open_esl.Utility.Base64.{isalnum}
use open_esl.Utility.UrlCoding.{
  print_char, is_unreserved, to_url_encoded, isspace, stoul_two, cons_char, from_url_encoded,
}

-- The byte that comes back.
abbrev pub returned : ℕ → ℕ
returned c = if ltb c 128 then c else 255

hex_digit_tests :
    (n : ℕ)
    → n < 16
    → ((isspace (hex_digit n) || hex_digit n == b'+') ≡ false) × ((hex_digit n == b'-') ≡ false)
unfolding isspace hex_digit
hex_digit_tests n h = (ground arith, ground arith)

stoul_two-hex_digit :
    (hi lo : ℕ) → hi < 16 → lo < 16 → stoul_two (hex_digit hi) (hex_digit lo) ≡ some (hi * 16 + lo)
unfolding stoul_two
stoul_two-hex_digit hi lo h k = rw (
  (hex_digit_tests hi h).0,
  (hex_digit_tests hi h).1,
  digit_value-hex_digit hi h,
  digit_value-hex_digit lo k,
)

from_url_encoded_char :
    (c : ℕ) (cs : Bytes)
    → IsByte c
    → from_url_encoded (b'%' ∷ (print_char c ++ cs))
      ≡ cons_char (some (returned c)) (from_url_encoded cs)
unfolding from_url_encoded print_char hex_byte
from_url_encoded_char c cs h = elim (Bool-cases (ltb c 128)) [
  | inl small ↦
      rw (small, stoul_two-hex_digit (c / 16) (c % 16) (omega arith) (omega arith))
        (ap (λ x. cons_char (some x) (from_url_encoded cs)) (omega arith))
  | inr large ↦ rw (large, stoul_two-hex_digit 15 15 (omega arith) (omega arith))
]

from_url_encoded_plain :
    (c : ℕ) (cs : Bytes)
    → (c == b'%') ≡ false
    → from_url_encoded (c ∷ cs) ≡ cons_char (some c) (from_url_encoded cs)
unfolding from_url_encoded cons_char
from_url_encoded_plain c [] h = refl
from_url_encoded_plain c (a ∷ []) h = rw h
from_url_encoded_plain c (a ∷ (b ∷ cs)) h = ground arith

unreserved_plain : (c : ℕ) → is_unreserved c ≡ true → (c == b'%') ≡ false
unfolding is_unreserved isalnum
unreserved_plain c h = ground arith

unreserved_returned : (c : ℕ) → is_unreserved c ≡ true → returned c ≡ c
unfolding is_unreserved isalnum
unreserved_returned c h = ground arith

-- Decoding what was encoded of a list of bytes never fails, and gives back every byte below 128,
-- and 255 for every byte from 128 on.
pub from_url_encoded-to_url_encoded :
    (str : Bytes)
    → All IsByte str
    → from_url_encoded (to_url_encoded str) ≡ some (map (λ c. if ltb c 128 then c else 255) str)
unfolding to_url_encoded cons_char
from_url_encoded-to_url_encoded [] h = unfold from_url_encoded in refl
from_url_encoded-to_url_encoded (c ∷ cs) h = elim (Bool-cases (is_unreserved c)) [
  | inl e ↦ rw (
    e,
    from_url_encoded_plain c (to_url_encoded cs) (unreserved_plain c e),
    from_url_encoded-to_url_encoded cs h.1,
    unreserved_returned c e,
  )
  | inr e ↦
      rw
        (e, from_url_encoded_char c (to_url_encoded cs) h.0, from_url_encoded-to_url_encoded cs h.1)
]
