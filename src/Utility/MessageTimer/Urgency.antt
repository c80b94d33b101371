-- ===== src/Utility/MessageTimer/Urgency.antt =====
-- Which message a round of `run` hands to the handler, and what stays in the list.
use open_esl.Prelude.{
  ℕ, zero, suc, ◌+◌, ◌≤◌, ◌<◌, ◌≡◌, refl, ap, subst, ◌⊎◌, inl, inr, true, false, Option, none, some,
  List, [], ◌∷◌, ◌++◌, map, append-nil, append_assoc, arith, ltb, if_cases, length, get_elem?, All,
  length-append, All-append, All-imp, get_elem?-append_left, get_elem?-append_at,
}
use open_esl.Utility.MessageTimer.{
  MessageType, takes_over, find_elapsed, erase_at, reset_movable, take_elapsed,
}

-- `s` comes before `m`: by its priority, or at equal priorities by its point in time.
abbrev pub IsBefore : MessageType → MessageType → Type 0
IsBefore s m =
    (m.priority < s.priority) ⊎ ((m.priority ≡ s.priority) × (s.time_point ≤ m.time_point))

-- What is known when the messages `xs` have been seen.
abbrev IsBest : ℕ → List MessageType → Option (ℕ × MessageType) → Type 0
IsBest now xs none = All (λ m. now < m.time_point) xs
IsBest now xs (some (i, s)) =
    (get_elem? xs i ≡ some s)
    × (s.time_point ≤ now)
    × All (λ m. (now < m.time_point) ⊎ IsBefore s m) xs

IsBest-skip :
    (now : ℕ) (xs : List MessageType) (best : Option (ℕ × MessageType)) (x : MessageType)
    → IsBest now xs best
    → now < x.time_point
    → IsBest now (xs ++ x ∷ []) best
IsBest-skip now xs none x b h = All-append _ xs (x ∷ []) b (h, tt)
IsBest-skip now xs (some (i, s)) x b h =
    (get_elem?-append_left xs (x ∷ []) i s b.0, b.1, All-append _ xs (x ∷ []) b.2 (inl h, tt))

IsBefore-trans : (r s m : MessageType) → IsBefore r s → IsBefore s m → IsBefore r m
IsBefore-trans r s m h k = ground arith

IsBest-take :
    (now : ℕ) (xs : List MessageType) (best : Option (ℕ × MessageType)) (x : MessageType)
    → IsBest now xs best
    → x.time_point ≤ now
    → takes_over best x ≡ true
    → IsBest now (xs ++ x ∷ []) (some (length xs, x))
unfolding takes_over
IsBest-take now xs none x b h e = (
  get_elem?-append_at xs x [],
  h,
  All-append _ xs (x ∷ []) (All-imp _ _ xs (λ m k. inl k) b) (inr (ground arith), tt),
)
IsBest-take now xs (some (i, s)) x b h e = (
  get_elem?-append_at xs x [],
  h,
  All-append _ xs (x ∷ [])
      (All-imp _ _ xs
        (λ m k. elim k [ inl l ↦ inl l | inr l ↦ inr (IsBefore-trans x s m (ground arith) l) ]) b.2)
      (inr (ground arith), tt),
)

IsBest-stay :
    (now : ℕ) (xs : List MessageType) (best : Option (ℕ × MessageType)) (x : MessageType)
    → IsBest now xs best
    → takes_over best x ≡ false
    → IsBest now (xs ++ x ∷ []) best
unfolding takes_over
IsBest-stay now xs none x b e = cc
IsBest-stay now xs (some (i, s)) x b e = (
  get_elem?-append_left xs (x ∷ []) i s b.0,
  b.1,
  All-append _ xs (x ∷ []) b.2 (inr (ground arith), tt),
)

find_elapsed-IsBest :
    (now i : ℕ) (best : Option (ℕ × MessageType)) (xs ys : List MessageType)
    → i ≡ length xs
    → IsBest now xs best
    → IsBest now (xs ++ ys) (find_elapsed now i best ys)
unfolding find_elapsed
find_elapsed-IsBest now i best xs [] e b = rw append-nil b
find_elapsed-IsBest now i best xs (y ∷ ys) e b =
    subst (λ zs. IsBest now zs (find_elapsed now i best (y ∷ ys))) (append_assoc xs (y ∷ []) ys)
      (if_cases P (ltb now y.time_point) best _
        (λ h.
          find_elapsed-IsBest now (i + 1) best (xs ++ y ∷ []) ys len
            (IsBest-skip now xs best y b (ground arith)))
        (λ h.
          if_cases P (takes_over best y) (some (i, y)) best
            (λ k.
              find_elapsed-IsBest now (i + 1) (some (i, y)) (xs ++ y ∷ []) ys len
                (taken (IsBest-take now xs best y b (ground arith) k)))
            (λ k.
              find_elapsed-IsBest now (i + 1) best (xs ++ y ∷ []) ys len
                (IsBest-stay now xs best y b k))))
  where
    P : Option (ℕ × MessageType) → Type 0
    P c = IsBest now ((xs ++ y ∷ []) ++ ys) (find_elapsed now (i + 1) c ys)

    len : i + 1 ≡ length (xs ++ y ∷ [])
    len = omega (arith, e, length-append xs (y ∷ []))

    taken :
        IsBest now (xs ++ y ∷ []) (some (length xs, y)) → IsBest now (xs ++ y ∷ []) (some (i, y))
    taken k = rw e k

-- `xs` with `s` between two parts, and the two parts without it.
erase_at-split :
    (i : ℕ) (xs : List MessageType) (s : MessageType)
    → get_elem? xs i ≡ some s
    → (before : List MessageType) × (behind : List MessageType) × (xs ≡ before ++ s ∷ behind)
      × (erase_at i xs ≡ before ++ behind)
unfolding erase_at
erase_at-split i [] s h = cc
erase_at-split zero (x ∷ xs) s h = ([], xs, ground arith, refl)
erase_at-split (suc i) (x ∷ xs) s h =
    let (before, behind, e, d) = erase_at-split i xs s h in
    (x ∷ before, behind, ap (◌∷◌ x) e, ap (◌∷◌ x) d)

-- The message that is handled, with the messages in front of it and behind it in the list.
pub record Chosen (now : ℕ) (xs : List MessageType) (r : List MessageType × Option ℕ) : Type 0 where
  pub before : List MessageType
  pub chosen : MessageType
  pub behind : List MessageType
  pub place : xs ≡ before ++ chosen ∷ behind
  pub elapsed : chosen.time_point ≤ now
  pub most_urgent : All (λ m. (now < m.time_point) ⊎ IsBefore chosen m) xs
  pub rest : r.0 ≡ map (reset_movable now) (before ++ behind)
  pub handled : r.1 ≡ some chosen.message

-- If the time of no message has come, the list stays as it is and nothing is handled. Otherwise one
-- message whose time has come is handled: there is none of higher priority whose time has come, nor
-- an earlier one of the same priority; and only it leaves the list, in which each movable message
-- starts its time anew.
pub take_elapsed_lem :
    (now : ℕ) (xs : List MessageType)
    → (All (λ m. now < m.time_point) xs × (take_elapsed now xs ≡ (xs, none)))
      ⊎ Chosen now xs (take_elapsed now xs)
unfolding take_elapsed
take_elapsed_lem now xs =
    split (find_elapsed now 0 none xs) refl (find_elapsed-IsBest now 0 none [] xs refl tt)
  where
    split :
        (best : Option (ℕ × MessageType))
        → find_elapsed now 0 none xs ≡ best
        → IsBest now xs best
        → (All (λ m. now < m.time_point) xs × (take_elapsed now xs ≡ (xs, none)))
          ⊎ Chosen now xs (take_elapsed now xs)
    split none e b = inl (b, rw (e, take_elapsed))
    split (some (i, s)) e b =
        let (before, behind, place, erased) = erase_at-split i xs s b.0 in
        inr (record {
          before = before;
          chosen = s;
          behind = behind;
          place = place;
          elapsed = b.1;
          most_urgent = b.2;
          rest = rw (e, take_elapsed) (ap (map (reset_movable now)) erased);
          handled = rw (e, take_elapsed);
        })
