-- ===== src/Utility/Bool.antt =====
-- `String::toUpper`, `String::toLower` and `String::toBool` of
-- features/common4esl/src/esl/utility/String.cpp, in the C locale.
pub mod Values
mod Tests
use open_esl.Prelude.{
  ℕ, ◌+◌, ◌-◌, Bool, true, false, ◌&&◌, ◌||◌, Option, none, some, [], ◌∷◌, map, leb, if◌then◌else◌,
  is_empty, bytes_eq, Bytes,
}
use open_esl.Utility.Trim.{trim}

-- `std::toupper`
unfoldable pub toupper : ℕ → ℕ
toupper c = if leb b'a' c && leb c b'z' then c - 32 else c

-- `std::tolower`
unfoldable pub tolower : ℕ → ℕ
tolower c = if leb b'A' c && leb c b'Z' then c + 32 else c

unfoldable pub to_upper : Bytes → Bytes
unfolding toupper
to_upper = map toupper

unfoldable pub to_lower : Bytes → Bytes
unfolding tolower
to_lower = map tolower

-- The texts that the source compares with.
abbrev pub zero_text : Bytes
zero_text = b'0' ∷ []

abbrev pub no_text : Bytes
no_text = b'N' ∷ b'O' ∷ []

abbrev pub false_text : Bytes
false_text = b'F' ∷ b'A' ∷ b'L' ∷ b'S' ∷ b'E' ∷ []

abbrev pub one_text : Bytes
one_text = b'1' ∷ []

abbrev pub minus_one_text : Bytes
minus_one_text = b'-' ∷ b'1' ∷ []

abbrev pub yes_text : Bytes
yes_text = b'Y' ∷ b'E' ∷ b'S' ∷ []

abbrev pub true_text : Bytes
true_text = b'T' ∷ b'R' ∷ b'U' ∷ b'E' ∷ []

-- `none` is the thrown `std::invalid_argument`.
unfoldable pub normalized_bool : Bytes → Option Bool
unfolding bytes_eq
normalized_bool normalized =
    if is_empty normalized
      || bytes_eq normalized zero_text
      || bytes_eq normalized no_text
      || bytes_eq normalized false_text
    then some false
    else if bytes_eq normalized one_text
        || bytes_eq normalized minus_one_text
        || bytes_eq normalized yes_text
        || bytes_eq normalized true_text
    then some true
    else none

unfoldable pub to_bool : Bytes → Option Bool
unfolding to_upper trim normalized_bool
to_bool str = normalized_bool (to_upper (trim str b' '))
