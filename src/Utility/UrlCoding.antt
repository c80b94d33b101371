-- ===== src/Utility/UrlCoding.antt =====
-- `String::toURLEncoded` and `String::fromURLEncoded` of
-- features/common4esl/src/esl/utility/String.cpp, where `char` is signed, as on x86.
pub mod Decoded
mod Tests
use open_esl.Prelude.{
  ℕ, ◌+◌, ◌-◌, ◌*◌, ◌%◌, Bool, true, false, ◌&&◌, ◌||◌, Option, none, some, [], ◌∷◌, ◌++◌, ◌==◌,
  ltb, leb, if◌then◌else◌, Bytes,
}
use open_esl.Utility.Base16.{hex_byte}
use open_esl.Utility.Base16.Decode.{digit_value}
use open_esl.Utility.Base64.{isalnum}

-- `snprintf(buffer, 3, "%02x", c)` of a `char`, which is passed as an `int`. A value from 128 on
-- is negative and prints as eight digits from "ffffff80" on, of which the buffer keeps two.
unfoldable pub print_char : ℕ → Bytes
unfolding hex_byte
print_char c = if ltb c 128 then hex_byte c else b'f' ∷ b'f' ∷ []

-- The characters that stay as they are.
unfoldable pub is_unreserved : ℕ → Bool
unfolding isalnum
is_unreserved c = isalnum c || c == b'-' || c == b'_' || c == b'.' || c == b'~'

unfoldable pub to_url_encoded : Bytes → Bytes
unfolding print_char is_unreserved
to_url_encoded [] = []
to_url_encoded (c ∷ cs) =
    (if is_unreserved c then c ∷ [] else b'%' ∷ print_char c) ++ to_url_encoded cs

-- `std::isspace`
unfoldable pub isspace : ℕ → Bool
isspace c = c == b' ' || (leb 9 c && leb c 13)

-- `std::stoul(part, nullptr, 16)` of a text of one or two characters: blanks, a sign and the
-- prefix `0x` are taken, then digits up to the first other character; `none` is the thrown
-- `std::invalid_argument`. The result is assigned to a `char`, so it is given modulo 256.
unfoldable pub stoul_one : ℕ → Option ℕ
unfolding digit_value
stoul_one a = digit_value a

unfoldable pub stoul_two : ℕ → ℕ → Option ℕ
unfolding isspace stoul_one
stoul_two a b =
    if isspace a || a == b'+'
    then stoul_one b
    else if a == b'-'
    then elim (stoul_one b) [ none ↦ none | some v ↦ some ((256 - v) % 256) ]
    else elim (digit_value a) [
      | none ↦ none
      | some hi ↦ elim (digit_value b) [ none ↦ some hi | some lo ↦ some (hi * 16 + lo) ]
    ]

-- One character in front of what the rest decodes to.
unfoldable pub cons_char : Option ℕ → Option Bytes → Option Bytes
cons_char (some c) (some cs) = some (c ∷ cs)
cons_char (some c) none = none
cons_char none rest = none

-- The loop over `i`; `none` is an exception of `std::stoul`.
unfoldable pub from_url_encoded : Bytes → Option Bytes
unfolding stoul_one stoul_two cons_char
from_url_encoded [] = some []
from_url_encoded (c ∷ []) = some (c ∷ [])
from_url_encoded (c ∷ (a ∷ [])) =
    if c == b'%' then cons_char (stoul_one a) (some []) else some (c ∷ a ∷ [])
from_url_encoded (c ∷ (a ∷ (b ∷ cs))) = elim (c == b'%') [
  | true ↦ cons_char (stoul_two a b) (from_url_encoded cs)
  | false ↦ cons_char (some c) (from_url_encoded (a ∷ (b ∷ cs)))
]
