-- ===== src/Utility/Crc32/Rounds.antt =====
-- The rounds of the polynomial, one bit at a time.
use Prim.Native.Nat.{bit_xor}
use open_esl.Prelude.{
  ◌^◌, ℕ, zero, suc, ◌+◌, ◌*◌, ◌/◌, ◌%◌, ◌<◌, ◌≡◌, refl, sym, ap, ap₂, ◌∙◌, arith, ◌==◌,
  if◌then◌else◌,
}
use open_esl.Utility.Crc32.Xor.{half-xor, low-xor, xor_zero, xor_exchange, xor_assoc}

-- The polynomial of CRC-32, the lowest bit for the highest power.
abbrev pub polynomial : ℕ
polynomial = 0xedb88320

abbrev pub feedback : ℕ → ℕ
feedback bit = if bit == 1 then polynomial else 0

-- Division by x: the lowest bit is shifted out, and the polynomial taken off if it was 1.
unfoldable pub round : ℕ → ℕ
round value = bit_xor (value / 2) (feedback (value % 2))

unfoldable pub rounds : ℕ → ℕ → ℕ
unfolding round
rounds zero value = value
rounds (suc n) value = rounds n (round value)

feedback-digits :
    (x y : ℕ) → x < 2 → y < 2 → feedback ((x + y) % 2) ≡ bit_xor (feedback x) (feedback y)
feedback-digits zero zero h k = refl
feedback-digits zero (suc zero) h k = refl
feedback-digits (suc zero) zero h k = refl
feedback-digits (suc zero) (suc zero) h k = refl
feedback-digits zero (suc (suc y)) h k = absurd (omega (arith, k))
feedback-digits (suc zero) (suc (suc y)) h k = absurd (omega (arith, k))
feedback-digits (suc (suc x)) y h k = absurd (omega (arith, h))

feedback-xor :
    (a b : ℕ) → feedback (bit_xor a b % 2) ≡ bit_xor (feedback (a % 2)) (feedback (b % 2))
feedback-xor a b =
    let digits : bit_xor a b % 2 ≡ (a % 2 + b % 2) % 2 = omega (arith, low-xor a b) in
    ap feedback digits ∙ feedback-digits (a % 2) (b % 2) (omega arith) (omega arith)

round-xor : (a b : ℕ) → round (bit_xor a b) ≡ bit_xor (round a) (round b)
unfolding round
round-xor a b =
    ap₂ bit_xor (half-xor a b) (feedback-xor a b)
    ∙ xor_exchange (a / 2) (b / 2) (feedback (a % 2)) (feedback (b % 2))

rounds-xor : (n a b : ℕ) → rounds n (bit_xor a b) ≡ bit_xor (rounds n a) (rounds n b)
unfolding rounds
rounds-xor zero a b = refl
rounds-xor (suc n) a b = ap (rounds n) (round-xor a b) ∙ rounds-xor n (round a) (round b)

-- The number without its `n` lowest bits, and these bits.
abbrev halves : ℕ → ℕ → ℕ
halves zero value = value
halves (suc n) value = halves n (value / 2)

abbrev lowest : ℕ → ℕ → ℕ
lowest zero value = 0
lowest (suc n) value = lowest n (value / 2) * 2 + value % 2

-- `n` rounds depend on the `n` lowest bits; the others are only shifted.
rounds-lowest :
    (n value : ℕ) → rounds n value ≡ bit_xor (halves n value) (rounds n (lowest n value))
unfolding rounds round
rounds-lowest zero value = sym (xor_zero value)
rounds-lowest (suc n) value =
    let low = lowest (suc n) value in
    let half : lowest n (value / 2) ≡ low / 2 = omega arith in
    let bit : value % 2 ≡ low % 2 = omega arith in
    rounds-xor n (value / 2) (feedback (value % 2))
    ∙ ap (λ x. bit_xor x (rounds n (feedback (value % 2)))) (rounds-lowest n (value / 2))
    ∙ xor_assoc (halves n (value / 2)) (rounds n (lowest n (value / 2)))
        (rounds n (feedback (value % 2)))
    ∙ ap (bit_xor (halves n (value / 2))) (
        sym (rounds-xor n (lowest n (value / 2)) (feedback (value % 2)))
        ∙ ap₂ (λ x y. rounds n (bit_xor x (feedback y))) half bit)

-- Eight rounds, with the lowest byte by itself.
pub rounds-byte : (value : ℕ) → rounds 8 value ≡ bit_xor (value / 256) (rounds 8 (value % 256))
rounds-byte value =
    let high : halves 8 value ≡ value / 256 = omega arith in
    let low : lowest 8 value ≡ value % 256 = omega arith in
    rounds-lowest 8 value ∙ ap₂ (λ x y. bit_xor x (rounds 8 y)) high low

halves-xor : (n a b : ℕ) → halves n (bit_xor a b) ≡ bit_xor (halves n a) (halves n b)
halves-xor zero a b = refl
halves-xor (suc n) a b = ap (halves n) (half-xor a b) ∙ halves-xor n (a / 2) (b / 2)

-- A byte changes nothing above the lowest byte.
pub high-xor : (value byte : ℕ) → byte < 256 → bit_xor value byte / 256 ≡ value / 256
high-xor value byte h =
    let all : halves 8 (bit_xor value byte) ≡ bit_xor value byte / 256 = omega arith in
    let high : halves 8 value ≡ value / 256 = omega arith in
    let none : halves 8 byte ≡ 0 = omega (arith, h) in
    sym all ∙ halves-xor 8 value byte ∙ ap₂ bit_xor high none ∙ xor_zero (value / 256)

-- Numbers of 32 bits stay such.
pub xor_fits : (a b : ℕ) → a < 2 ^ 32 → b < 2 ^ 32 → bit_xor a b < 2 ^ 32
xor_fits a b h k =
    let none : halves 32 a ≡ 0 = omega (arith, h) in
    let none' : halves 32 b ≡ 0 = omega (arith, k) in
    omega (arith, halves-xor 32 a b ∙ ap₂ bit_xor none none' ∙ xor_zero 0)
