-- ===== src/Database/Number.antt =====
-- `std::int64_t` with `std::to_string` and `std::stoll`, as Field.cpp uses them.
pub mod RoundTrip
mod Tests
use open_esl.Prelude.{
  ℕ, zero, suc, ◌+◌, ◌-◌, ◌*◌, ◌/◌, ◌%◌, ◌^◌, refl, Bool, true, false, ◌&&◌, ◌||◌, Option, none,
  some, [], ◌∷◌, ltb, leb, ◌==◌, if◌then◌else◌, Bytes,
}

-- `negsuc n` is -(n + 1).
pub data ℤ : Type 0 where
  pos : ℕ → ℤ
  negsuc : ℕ → ℤ

unfoldable pub int_eq : ℤ → ℤ → Bool
int_eq (pos m) (pos n) = m == n
int_eq (pos m) (negsuc n) = false
int_eq (negsuc m) (pos n) = false
int_eq (negsuc m) (negsuc n) = m == n

-- The decimal digits of a number, in front of what is there; 20 digits are enough below 2 ^ 64.
unfoldable pub digits_onto : ℕ → ℕ → Bytes → Bytes
digits_onto zero n acc = acc
digits_onto (suc fuel) n acc =
    let more = digits_onto fuel (n / 10) ((b'0' + n % 10) ∷ acc) in
    if ltb n 10 then (b'0' + n) ∷ acc else more

-- `std::to_string(std::int64_t)`
unfoldable pub print_integer : ℤ → Bytes
unfolding digits_onto
print_integer (pos n) = digits_onto 20 n []
print_integer (negsuc n) = b'-' ∷ digits_onto 20 (suc n) []

unfoldable pub is_digit : ℕ → Bool
is_digit c = leb b'0' c && leb c b'9'

unfoldable pub read_digits : ℕ → Bytes → ℕ
unfolding is_digit
read_digits acc [] = acc
read_digits acc (c ∷ cs) = elim (is_digit c) [
  | true ↦ read_digits (acc * 10 + (c - b'0')) cs
  | false ↦ acc
]

-- At least one digit.
unfoldable pub read_number : Bytes → Option ℕ
unfolding read_digits is_digit
read_number [] = none
read_number (c ∷ cs) = if is_digit c then some (read_digits 0 (c ∷ cs)) else none

unfoldable pub skip_blanks : Bytes → Bytes
skip_blanks [] = []
skip_blanks (c ∷ cs) = if c == b' ' || (leb 9 c && leb c 13) then skip_blanks cs else c ∷ cs

-- Out of the range of 64 bits, `std::out_of_range` is thrown.
unfoldable pub in_range : Bool → Option ℕ → Option ℤ
in_range negative none = none
in_range false (some n) = if ltb n (2 ^ 63) then some (pos n) else none
in_range true (some n) =
    if n == 0 then some (pos 0) else if leb n (2 ^ 63) then some (negsuc (n - 1)) else none

unfoldable pub read_signed : Bytes → Option ℤ
unfolding in_range read_number
read_signed [] = none
read_signed (c ∷ cs) =
    if c == b'-'
    then in_range true (read_number cs)
    else if c == b'+'
    then in_range false (read_number cs)
    else in_range false (read_number (c ∷ cs))

-- `std::stoll`; `none` is an exception.
unfoldable pub stoll : Bytes → Option ℤ
unfolding skip_blanks read_signed
stoll str = read_signed (skip_blanks str)
