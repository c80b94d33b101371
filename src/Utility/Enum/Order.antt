-- ===== src/Utility/Enum/Order.antt =====
-- The comparisons of `Enum` are one total order, that of the texts.
use open_esl.Prelude.{
  ℕ, ◌≡◌, refl, sym, ap, ap₂, ◌∙◌, ◌⊎◌, inl, inr, Bool, true, false, not, ◌&&◌, [], ◌∷◌, arith,
  ◌==◌, if◌then◌else◌, ==_iff, Bool-cases, if_cases, if_true, Bytes, bytes_eq, bytes_eq_refl,
  bytes_eq_sound,
}
use open_esl.Utility.Enum.{
  Enum, to_string, text_less, same_enum, equal, less, less_equal, greater, greater_equal,
}

text_less-irreflexive : (xs : Bytes) → text_less xs xs ≡ false
unfolding text_less
text_less-irreflexive [] = refl
text_less-irreflexive (x ∷ xs) = ground (arith, text_less-irreflexive xs)

text_less-asymmetric : (xs ys : Bytes) → text_less xs ys ≡ true → text_less ys xs ≡ false
unfolding text_less
text_less-asymmetric [] [] h = refl
text_less-asymmetric [] (y ∷ ys) h = refl
text_less-asymmetric (x ∷ xs) [] h = cc
text_less-asymmetric (x ∷ xs) (y ∷ ys) h = ground (arith, text_less-asymmetric xs ys)

text_less-connected : (xs ys : Bytes) → text_less xs ys ≡ false → text_less ys xs ≡ false → xs ≡ ys
unfolding text_less
text_less-connected [] [] h k = refl
text_less-connected [] (y ∷ ys) h k = cc
text_less-connected (x ∷ xs) [] h k = cc
text_less-connected (x ∷ xs) (y ∷ ys) h k = grind (arith, text_less-connected xs ys)

-- Different values of the enumeration have different texts.
abbrev pub IsInjective : (ℕ → Bytes) → Enum → Enum → Type 0
IsInjective names a b =
    a.has_enum ≡ true
    → b.has_enum ≡ true
    → names a.enum_type ≡ names b.enum_type
    → a.enum_type ≡ b.enum_type

same_enum-to_string :
    (names : ℕ → Bytes) (a b : Enum) → same_enum a b ≡ true → to_string names a ≡ to_string names b
unfolding same_enum to_string
same_enum-to_string names a b h =
    if_true a.has_enum _ _ (ground arith)
    ∙ ap names (ground arith)
    ∙ sym (if_true b.has_enum _ _ (ground arith))

less_lem :
    (names : ℕ → Bytes) (a b : Enum)
    → less names a b ≡ text_less (to_string names a) (to_string names b)
unfolding less
less_lem names a b =
    if_cases (λ r. r ≡ text_less (to_string names a) (to_string names b)) (same_enum a b) _ _
      (λ e. sym (
        ap (λ text. text_less (to_string names a) text) (sym (same_enum-to_string names a b e))
        ∙ text_less-irreflexive (to_string names a)))
      (λ e. refl)

equal_names :
    (names : ℕ → Bytes) (x y : ℕ)
    → (names x ≡ names y → x ≡ y)
    → (x == y) ≡ bytes_eq (names x) (names y)
equal_names names x y injective = elim (Bool-cases (bytes_eq (names x) (names y))) [
  | inl e ↦ ground (arith, injective (bytes_eq_sound (names x) (names y) e))
  | inr e ↦ elim (Bool-cases (x == y)) [
    | inl d ↦ absurd (
        ground (
          arith,
          ap names ((==_iff x y).0 d),
          ap (bytes_eq (names x)) (ap names ((==_iff x y).0 d)),
          bytes_eq_refl (names x),
          e,
        ))
    | inr d ↦ d ∙ sym e
  ]
]

equal_lem :
    (names : ℕ → Bytes) (a b : Enum)
    → IsInjective names a b
    → equal names a b ≡ bytes_eq (to_string names a) (to_string names b)
unfolding equal to_string
equal_lem names a b injective =
    if_cases (λ r. r ≡ bytes_eq (to_string names a) (to_string names b)) (a.has_enum && b.has_enum)
      _ _
      (λ e.
        equal_names names a.enum_type b.enum_type (injective (ground arith) (ground arith))
        ∙ sym (
            ap₂ bytes_eq (if_true a.has_enum _ _ (ground arith))
              (if_true b.has_enum _ _ (ground arith))))
      (λ e. refl)

text_less-apart : (xs ys : Bytes) → text_less xs ys ≡ true → bytes_eq xs ys ≡ false
unfolding text_less bytes_eq
text_less-apart [] [] h = cc
text_less-apart [] (y ∷ ys) h = refl
text_less-apart (x ∷ xs) [] h = refl
text_less-apart (x ∷ xs) (y ∷ ys) h = ground (arith, text_less-apart xs ys)

text_greater-apart : (xs ys : Bytes) → text_less ys xs ≡ true → bytes_eq xs ys ≡ false
unfolding text_less bytes_eq
text_greater-apart [] [] h = cc
text_greater-apart [] (y ∷ ys) h = refl
text_greater-apart (x ∷ xs) [] h = refl
text_greater-apart (x ∷ xs) (y ∷ ys) h = ground (arith, text_greater-apart xs ys)

-- Exactly one of three tests holds.
abbrev pub IsOneOf : Bool → Bool → Bool → Type 0
IsOneOf p q r =
    ((p ≡ true) × (q ≡ false) × (r ≡ false))
    ⊎ ((p ≡ false) × (q ≡ true) × (r ≡ false))
    ⊎ ((p ≡ false) × (q ≡ false) × (r ≡ true))

one_of : {p q r s t u : Bool} → p ≡ s → q ≡ t → r ≡ u → IsOneOf s t u → IsOneOf p q r
one_of ps qt ru tests = ground arith

text_less-trichotomy :
    (xs ys : Bytes) → IsOneOf (text_less xs ys) (bytes_eq xs ys) (text_less ys xs)
text_less-trichotomy xs ys = elim (Bool-cases (text_less xs ys)) [
  | inl h ↦ inl (h, text_less-apart xs ys h, text_less-asymmetric xs ys h)
  | inr h ↦ elim (Bool-cases (text_less ys xs)) [
    | inl k ↦ inr (inr (h, text_greater-apart xs ys k, k))
    | inr k ↦
        inr (inl (h, ap (bytes_eq xs) (sym (text_less-connected xs ys h k)) ∙ bytes_eq_refl xs, k))
  ]
]

greater_less :
    (names : ℕ → Bytes) (a b : Enum)
    → greater names a b ≡ text_less (to_string names b) (to_string names a)
unfolding greater
greater_less names a b =
    if_cases (λ r. r ≡ text_less (to_string names b) (to_string names a)) (same_enum a b) _ _
      (λ e. sym (
        ap (text_less (to_string names b)) (same_enum-to_string names a b e)
        ∙ text_less-irreflexive (to_string names b)))
      (λ e. refl)

not_if : (b x : Bool) → (if b then true else not x) ≡ not (if b then false else x)
not_if true x = refl
not_if false x = refl

-- The comparisons of an `Enum` whose values have texts of their own: of any two, made from a value
-- or a text each, exactly one of less, equal and greater holds; `<=` holds unless `>` does, and `>=`
-- unless `<` does; and less and equal are as for the texts of the two.
pub comparisons-total :
    (names : ℕ → Bytes) (a b : Enum)
    → IsInjective names a b
    → IsOneOf (less names a b) (equal names a b) (greater names a b)
      × (less_equal names a b ≡ not (greater names a b))
      × (greater_equal names a b ≡ not (less names a b))
      × (equal names a b ≡ bytes_eq (to_string names a) (to_string names b))
      × (less names a b ≡ text_less (to_string names a) (to_string names b))
unfolding less_equal greater_equal less greater
comparisons-total names a b injective =
    let less_text = text_less (to_string names a) (to_string names b) in
    let greater_text = text_less (to_string names b) (to_string names a) in
    (
      one_of (less_lem names a b) (equal_lem names a b injective) (greater_less names a b)
          (text_less-trichotomy (to_string names a) (to_string names b)),
      not_if (same_enum a b) greater_text,
      not_if (same_enum a b) less_text,
      equal_lem names a b injective,
      less_lem names a b,
    )
