-- ===== src/Utility/MessageTimer/Keys.antt =====
-- A key stands for one message at most.
use open_esl.Prelude.{
  ℕ, zero, suc, ◌+◌, ◌-◌, ◌≤◌, ◌≡◌, refl, ap, ◌⊎◌, inl, inr, true, false, Option, none, some, List,
  [], ◌∷◌, ◌++◌, map, arith, ◌==◌, if◌then◌else◌, Bool-cases,
}
use open_esl.Utility.MessageTimer.Sleep.{Fits, next_state-Fits}
use open_esl.Utility.MessageTimer.{
  handle, MessageType, erase_key, add_message_type, erase_at, reset_movable, take_elapsed,
  find_elapsed, Timer, run_round, next_state,
}

-- How many messages have the key.
abbrev pub count : ℕ → List MessageType → ℕ
count key [] = 0
count key (x ∷ xs) = (if x.key == key then 1 else 0) + count key xs

-- No two messages have the same key, but for the key 0.
abbrev pub IsKeyed : List MessageType → Type 0
IsKeyed xs = (k : ℕ) → count (suc k) xs ≤ 1

count-append :
    (key : ℕ) (xs ys : List MessageType) → count key (xs ++ ys) ≡ count key xs + count key ys
count-append key [] ys = omega arith
count-append key (x ∷ xs) ys = omega (arith, count-append key xs ys)

count-erase_key :
    (key k : ℕ) (xs : List MessageType)
    → count k (erase_key key xs) ≡ (if k == key then count k xs - 1 else count k xs)
unfolding erase_key
count-erase_key key k [] = ground arith
count-erase_key key k (x ∷ xs) = ground (arith, count-erase_key key k xs)

-- Adding a message keeps the keys apart: under a key other than 0 the message is then the only one,
-- and the number of messages with another key does not change.
add_message_type-IsKeyed :
    (m : MessageType) (xs : List MessageType)
    → IsKeyed xs
    → IsKeyed (add_message_type m xs)
      × ((k : ℕ)
          → count (suc k) (add_message_type m xs)
            ≡ (if suc k == m.key then 1 else count (suc k) xs))
unfolding add_message_type
add_message_type-IsKeyed m xs h = (
  λ k. ground (
    arith,
    h k,
    count-append (suc k) (erase_key m.key xs) (m ∷ []),
    count-append (suc k) xs (m ∷ []),
    count-erase_key m.key (suc k) xs,
  ),
  λ k. ground (
    arith,
    h k,
    count-append (suc k) (erase_key m.key xs) (m ∷ []),
    count-append (suc k) xs (m ∷ []),
    count-erase_key m.key (suc k) xs,
  ),
)

count-reset_movable :
    (k now : ℕ) (xs : List MessageType) → count k (map (reset_movable now) xs) ≡ count k xs
unfolding reset_movable
count-reset_movable k now [] = refl
count-reset_movable k now (x ∷ xs) = ground (arith, count-reset_movable k now xs)

count-erase_at : (k i : ℕ) (xs : List MessageType) → count k (erase_at i xs) ≤ count k xs
unfolding erase_at
count-erase_at k i [] = omega arith
count-erase_at k zero (x ∷ xs) = omega arith
count-erase_at k (suc i) (x ∷ xs) = omega (arith, count-erase_at k i xs)

count-take_elapsed :
    (k now : ℕ) (xs : List MessageType) → count k (take_elapsed now xs).0 ≤ count k xs
unfolding take_elapsed
count-take_elapsed k now xs = found (find_elapsed now 0 none xs) refl
  where
    found :
        (best : Option (ℕ × MessageType))
        → find_elapsed now 0 none xs ≡ best
        → count k (take_elapsed now xs).0 ≤ count k xs
    found none e = rw (e, take_elapsed) (omega arith)
    found (some (i, s)) e =
        rw (e, take_elapsed)
          (omega (arith, count-reset_movable k now (erase_at i xs), count-erase_at k i xs))

handle-IsKeyed :
    (now : ℕ) (handler : ℕ → Timer → Timer) (t : Timer)
    → ((m : ℕ) (q : Timer) → IsKeyed q.message_types → IsKeyed (handler m q).message_types)
    → IsKeyed t.message_types
    → IsKeyed (handle now handler t).message_types
unfolding handle
handle-IsKeyed now handler t keeps h = called (take_elapsed now t.message_types).1
  where
    quiet : Timer
    quiet = record t { message_types = (take_elapsed now t.message_types).0 }

    quiet-IsKeyed : IsKeyed quiet.message_types
    quiet-IsKeyed k = omega (arith, h k, count-take_elapsed (suc k) now t.message_types)

    called :
        (o : Option ℕ)
        → IsKeyed (elim o as (λ x. Timer) [ none ↦ quiet | some m ↦ handler m quiet ]).message_types
    called none = quiet-IsKeyed
    called (some m) = keeps m quiet quiet-IsKeyed

-- A round of `run` takes place exactly while the timer runs. Its messages have keys apart, if the
-- handler keeps them apart, and its way of waiting is the one that fits the messages left.
pub run_round-IsKeyed :
    (now later : ℕ) (handler : ℕ → Timer → Timer) (t : Timer)
    → ((m : ℕ) (q : Timer) → IsKeyed q.message_types → IsKeyed (handler m q).message_types)
    → IsKeyed t.message_types
    → ((t.running ≡ false) × (run_round now later handler t ≡ none))
      ⊎ ((u : Timer) × (t.running ≡ true)
          × (run_round now later handler t ≡ some u)
          × IsKeyed u.message_types
          × Fits later u.message_types u.state)
unfolding run_round
run_round-IsKeyed now later handler t keeps h = elim (Bool-cases t.running) [
  | inr e ↦ inl (e, ap (λ b. if b then some round else none) e)
  | inl e ↦ inr (
    round,
    e,
    ap (λ b. if b then some round else none) e,
    handle-IsKeyed now handler t keeps h,
    next_state-Fits later (handle now handler t).message_types,
  )
]
  where
    round : Timer
    round = record (handle now handler t) {
      state = next_state later (handle now handler t).message_types;
    }
