-- ===== src/Utility/Crc32/Xor.antt =====
-- The exclusive or of two numbers.
use Prim.Native.Nat.{bit_xor, bit_xor-bitwise, digits, differ}
use open_esl.Prelude.{
  ℕ, zero, suc, ◌+◌, ◌*◌, ◌/◌, ◌%◌, ◌≤◌, ◌≡◌, refl, sym, ap, ap₂, ◌∙◌, ◌⊎◌, inl, inr, arith,
}

-- How many digits are counted makes no difference, as long as there are enough.
module _ (z : ℕ → ℕ) (f : ℕ → ℕ → ℕ) where
  digits-enough :
      (count other a b : ℕ) → a ≤ count → a ≤ other → digits z f count a b ≡ digits z f other a b
  digits-enough (suc count) (suc other) (suc a) b h k =
      let smaller : suc a / 2 ≤ count = omega (arith, h) in
      let also_smaller : suc a / 2 ≤ other = omega (arith, k) in
      ap (λ d. d * 2 + f (suc a % 2) (b % 2))
        (digits-enough count other (suc a / 2) (b / 2) smaller also_smaller)
  digits-enough (suc count) (suc other) zero b h k = refl
  digits-enough (suc count) zero zero b h k = refl
  digits-enough zero (suc other) zero b h k = refl
  digits-enough zero zero zero b h k = refl
  digits-enough zero other (suc a) b h k = absurd (omega (arith, h))
  digits-enough (suc count) zero (suc a) b h k = absurd (omega (arith, k))

differ_lem : (a b : ℕ) → differ (a % 2) (b % 2) ≡ (a + b) % 2
differ_lem a b = elim (bit a) [
  | inl h ↦ ap (λ x. differ x (b % 2)) h ∙ omega (arith, h)
  | inr h ↦ elim (bit b) [
    | inl k ↦ ap₂ differ h k ∙ omega (arith, h, k)
    | inr k ↦ ap₂ differ h k ∙ omega (arith, h, k)
  ]
]
  where
    bit : (n : ℕ) → (n % 2 ≡ 0) ⊎ (n % 2 ≡ 1)
    bit n = ground arith

-- The digits one by one, the lowest first.
pub xor_step : (a b : ℕ) → bit_xor a b ≡ bit_xor (a / 2) (b / 2) * 2 + (a + b) % 2
xor_step zero b = bit_xor-bitwise 0 b ∙ omega (arith, bit_xor-bitwise 0 (b / 2))
xor_step (suc a) b =
    bit_xor-bitwise (suc a) b
    ∙ ap₂ (λ d e. d * 2 + e)
        (digits-enough (λ y. y) differ a (suc a / 2) (suc a / 2) (b / 2) (omega arith) (omega arith)
          ∙ sym (bit_xor-bitwise (suc a / 2) (b / 2)))
        (differ_lem (suc a) b)

pub half-xor : (a b : ℕ) → bit_xor a b / 2 ≡ bit_xor (a / 2) (b / 2)
half-xor a b = omega (arith, xor_step a b)

pub low-xor : (a b : ℕ) → bit_xor a b % 2 ≡ (a + b) % 2
low-xor a b = omega (arith, xor_step a b)

pub zero_xor : (b : ℕ) → bit_xor 0 b ≡ b
zero_xor b = bit_xor-bitwise 0 b

xor_none : (n a : ℕ) → a ≤ n → bit_xor a 0 ≡ a
xor_none zero a h =
    let none : a ≡ 0 = omega (arith, h) in ap (λ x. bit_xor x 0) none ∙ zero_xor 0 ∙ sym none
xor_none (suc n) a h = omega (arith, xor_step a 0, xor_none n (a / 2) (omega (arith, h)))

pub xor_zero : (a : ℕ) → bit_xor a 0 ≡ a
xor_zero a = xor_none a a (omega arith)

self : (n a : ℕ) → a ≤ n → bit_xor a a ≡ 0
self zero a h = let none : a ≡ 0 = omega (arith, h) in ap (λ x. bit_xor x x) none ∙ zero_xor 0
self (suc n) a h = omega (arith, xor_step a a, self n (a / 2) (omega (arith, h)))

commutes : (n a b : ℕ) → a ≤ n → bit_xor a b ≡ bit_xor b a
commutes zero a b h =
    let none : a ≡ 0 = omega (arith, h) in
    ap (λ x. bit_xor x b) none ∙ zero_xor b ∙ sym (xor_zero b) ∙ ap (bit_xor b) (sym none)
commutes (suc n) a b h =
    omega (arith, xor_step a b, xor_step b a, commutes n (a / 2) (b / 2) (omega (arith, h)))

pub xor_comm : (a b : ℕ) → bit_xor a b ≡ bit_xor b a
xor_comm a b = commutes a a b (omega arith)

associates : (n a b c : ℕ) → a ≤ n → bit_xor (bit_xor a b) c ≡ bit_xor a (bit_xor b c)
associates zero a b c h =
    let none : a ≡ 0 = omega (arith, h) in
    ap (λ x. bit_xor (bit_xor x b) c) none
    ∙ ap (λ x. bit_xor x c) (zero_xor b)
    ∙ sym (zero_xor (bit_xor b c))
    ∙ ap (λ x. bit_xor x (bit_xor b c)) (sym none)
associates (suc n) a b c h = omega (
  arith,
  xor_step (bit_xor a b) c,
  xor_step a (bit_xor b c),
  ap (λ x. bit_xor x (c / 2)) (half-xor a b),
  ap (bit_xor (a / 2)) (half-xor b c),
  low-xor a b,
  low-xor b c,
  associates n (a / 2) (b / 2) (c / 2) (omega (arith, h)),
)

pub xor_assoc : (a b c : ℕ) → bit_xor (bit_xor a b) c ≡ bit_xor a (bit_xor b c)
xor_assoc a b c = associates a a b c (omega arith)

-- A mask that is applied twice is gone.
pub xor-xor : (a m : ℕ) → bit_xor (bit_xor a m) m ≡ a
xor-xor a m = xor_assoc a m m ∙ ap (bit_xor a) (self m m (omega arith)) ∙ xor_zero a

pub xor_exchange :
    (a b c d : ℕ) → bit_xor (bit_xor a b) (bit_xor c d) ≡ bit_xor (bit_xor a c) (bit_xor b d)
xor_exchange a b c d =
    xor_assoc a b (bit_xor c d)
    ∙ ap (bit_xor a)
        (sym (xor_assoc b c d) ∙ ap (λ x. bit_xor x d) (xor_comm b c) ∙ xor_assoc c b d)
    ∙ sym (xor_assoc a c (bit_xor b d))
