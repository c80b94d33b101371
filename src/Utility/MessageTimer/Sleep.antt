-- ===== src/Utility/MessageTimer/Sleep.antt =====
-- How long a round of `run` waits.
use open_esl.Prelude.{
  ℕ, ◌+◌, ◌≤◌, ◌<◌, ◌≡◌, refl, ◌⊎◌, inl, inr, List, [], ◌∷◌, arith, ltb, if_cases, All, All-imp,
}
use open_esl.Utility.MessageTimer.{
  MessageType, State, no_wait, wait, wait_for, earliest, next_state,
}

abbrev pub Any : (MessageType → Type 0) → List MessageType → Type 0
Any P [] = ⊥
Any P (x ∷ xs) = P x ⊎ Any P xs

earliest-le :
    (x : MessageType) (xs : List MessageType) → All (λ m. earliest x xs ≤ m.time_point) (x ∷ xs)
unfolding earliest
earliest-le x [] = (omega arith, tt)
earliest-le x (y ∷ ys) =
    if_cases (λ n. All (λ (m : MessageType). n ≤ m.time_point) (x ∷ y ∷ ys))
      (ltb y.time_point x.time_point) _ _
      (λ h. (ground (arith, (earliest-le y ys).0), earliest-le y ys))
      (λ h. ((earliest-le x ys).0, (ground (arith, (earliest-le x ys).0), (earliest-le x ys).1)))

earliest-Any :
    (x : MessageType) (xs : List MessageType) → Any (λ m. m.time_point ≡ earliest x xs) (x ∷ xs)
unfolding earliest
earliest-Any x [] = inl refl
earliest-Any x (y ∷ ys) =
    if_cases (λ n. Any (λ (m : MessageType). m.time_point ≡ n) (x ∷ y ∷ ys))
      (ltb y.time_point x.time_point) _ _ (λ h. inr (earliest-Any y ys))
      (λ h. elim (earliest-Any x ys) [ inl e ↦ inl e | inr a ↦ inr (inr a) ])

-- What each way of waiting says of the messages.
abbrev pub Fits : ℕ → List MessageType → State → Type 0
Fits now xs wait = xs ≡ []
Fits now xs no_wait = Any (λ m. m.time_point ≤ now) xs
Fits now xs (wait_for t) =
    (0 < t) × All (λ m. now + t ≤ m.time_point) xs × Any (λ m. m.time_point ≡ now + t) xs

Any-imp :
    (P Q : MessageType → Type 0) (xs : List MessageType)
    → ((m : MessageType) → P m → Q m)
    → Any P xs
    → Any Q xs
Any-imp P Q [] f h = h
Any-imp P Q (x ∷ xs) f (inl p) = inl (f x p)
Any-imp P Q (x ∷ xs) f (inr h) = inr (Any-imp P Q xs f h)

-- A round waits for a notification only if there is no message, does not wait only if the time of
-- some message has come, and otherwise waits exactly until the earliest message.
pub next_state-Fits : (now : ℕ) (xs : List MessageType) → Fits now xs (next_state now xs)
unfolding next_state
next_state-Fits now [] = refl
next_state-Fits now (x ∷ xs) =
    if_cases (Fits now (x ∷ xs)) (ltb now (earliest x xs)) _ _
      (λ h. (
        ground arith,
        All-imp _ _ (x ∷ xs) (λ m k. ground arith) (earliest-le x xs),
        Any-imp _ _ (x ∷ xs) (λ m k. ground arith) (earliest-Any x xs),
      ))
      (λ h. Any-imp _ _ (x ∷ xs) (λ m k. ground arith) (earliest-Any x xs))
