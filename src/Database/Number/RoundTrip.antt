-- ===== src/Database/Number/RoundTrip.antt =====
-- `std::stoll` reads back what `std::to_string` writes.
use open_esl.Prelude.{
  ℕ, zero, suc, ◌+◌, ◌*◌, ◌/◌, ◌%◌, ◌^◌, ◌<◌, ◌≡◌, refl, ap, ◌∙◌, true, false, ◌&&◌, ◌||◌, some, [],
  ◌∷◌, arith, ltb, leb, ◌==◌, lt→ltb, if_cases, Bytes,
}
use native.Mathlib.Nat.{pow-suc}
use open_esl.Database.Number.{
  ℤ, pos, negsuc, digits_onto, print_integer, is_digit, read_digits, read_number, skip_blanks,
  in_range, read_signed, stoll,
}

is_digit_char : (d : ℕ) → d < 10 → is_digit (b'0' + d) ≡ true
unfolding is_digit
is_digit_char d h = ground arith

read_digits_cons :
    (a d : ℕ) (acc : Bytes)
    → d < 10
    → read_digits a ((b'0' + d) ∷ acc) ≡ read_digits (a * 10 + d) acc
unfolding read_digits
read_digits_cons a d acc h =
    rw (is_digit_char d h, read_digits) (ap (λ v. read_digits (a * 10 + v) acc) (omega arith))

read_digits-digits_onto :
    (fuel n : ℕ) (acc : Bytes)
    → n < 10 ^ suc fuel
    → read_digits 0 (digits_onto (suc fuel) n acc) ≡ read_digits n acc
unfolding digits_onto
read_digits-digits_onto zero n acc h =
    let small : n < 10 = h in
    rw (lt→ltb n 10 small, read_digits_cons 0 n acc small)
      (ap (λ m. read_digits m acc) (omega arith))
read_digits-digits_onto (suc fuel) n acc h =
    if_cases (λ b. read_digits 0 b ≡ read_digits n acc) (ltb n 10) _ _
      (λ e. read_digits_cons 0 n acc (ground arith) ∙ ap (λ m. read_digits m acc) (omega arith))
      (λ e.
        read_digits-digits_onto fuel (n / 10) ((b'0' + n % 10) ∷ acc)
          (omega (arith, pow-suc 10 (suc fuel)))
        ∙ read_digits_cons (n / 10) (n % 10) acc (omega arith)
        ∙ ap (λ m. read_digits m acc) (omega arith))

abbrev StartsDigit : Bytes → Type 0
StartsDigit [] = ⊥
StartsDigit (c ∷ cs) = is_digit c ≡ true

digits_onto-StartsDigit : (fuel n : ℕ) (acc : Bytes) → StartsDigit (digits_onto (suc fuel) n acc)
unfolding digits_onto
digits_onto-StartsDigit zero n acc =
    if_cases StartsDigit (ltb n 10) ((b'0' + n) ∷ acc) ((b'0' + n % 10) ∷ acc)
      (λ e. unfold is_digit in ground arith) (λ e. unfold is_digit in ground arith)
digits_onto-StartsDigit (suc fuel) n acc =
    if_cases StartsDigit (ltb n 10) ((b'0' + n) ∷ acc) _ (λ e. unfold is_digit in ground arith)
      (λ e. digits_onto-StartsDigit fuel (n / 10) ((b'0' + n % 10) ∷ acc))

read_number_digits :
    (n : ℕ) (text : Bytes) → StartsDigit text → read_digits 0 text ≡ n → read_number text ≡ some n
unfolding read_number
read_number_digits n [] h e = absurd h
read_number_digits n (c ∷ cs) h e = rw h (ap some e)

read_number-digits_onto : (n : ℕ) → n < 10 ^ 20 → read_number (digits_onto 20 n []) ≡ some n
read_number-digits_onto n h =
    read_number_digits n (digits_onto 20 n []) (digits_onto-StartsDigit 19 n [])
      (read_digits-digits_onto 19 n [] h ∙ unfold read_digits in refl)

is_digit_tests :
    (c : ℕ)
    → is_digit c ≡ true
    → ((c == b' ' || (leb 9 c && leb c 13)) ≡ false) × ((c == b'-') ≡ false) × ((c == b'+') ≡ false)
unfolding is_digit
is_digit_tests c h = ground arith

stoll_digits : (text : Bytes) → StartsDigit text → stoll text ≡ in_range false (read_number text)
unfolding stoll skip_blanks read_signed
stoll_digits [] h = absurd h
stoll_digits (c ∷ cs) h = let t = is_digit_tests c h in rw (t.0, skip_blanks) (rw (t.1, t.2))

stoll_minus : (text : Bytes) → stoll (b'-' ∷ text) ≡ in_range true (read_number text)
unfolding stoll skip_blanks read_signed
stoll_minus text = refl

-- The integer fits 64 bits.
abbrev pub Fits64 : ℤ → Type 0
Fits64 (pos n) = n < 2 ^ 63
Fits64 (negsuc n) = n < 2 ^ 63

in_range_negative : (n : ℕ) → n < 2 ^ 63 → in_range true (some (suc n)) ≡ some (negsuc n)
unfolding in_range
in_range_negative n h = ground arith

-- An integer of 64 bits is read back from its decimal text.
pub stoll-print_integer : (i : ℤ) → Fits64 i → stoll (print_integer i) ≡ some i
unfolding print_integer
stoll-print_integer (pos n) h =
    stoll_digits (digits_onto 20 n []) (digits_onto-StartsDigit 19 n [])
    ∙ rw (read_number-digits_onto n (omega arith)) (unfold in_range in rw (lt→ltb n (2 ^ 63) h))
stoll-print_integer (negsuc n) h =
    stoll_minus (digits_onto 20 (suc n) [])
    ∙ rw (read_number-digits_onto (suc n) (omega arith)) (in_range_negative n h)
