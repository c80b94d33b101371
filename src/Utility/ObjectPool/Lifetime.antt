-- ===== src/Utility/ObjectPool/Lifetime.antt =====
-- The timeout thread: which objects it erases, and how long it waits.
use open_esl.Prelude.{
  ℕ, ◌+◌, ◌-◌, ◌≤◌, ◌<◌, ◌≡◌, refl, ◌≢◌, ◌⊎◌, inl, inr, true, false, ◌||◌, List, [], ◌∷◌, arith,
  ltb, leb, ◌==◌, Bool-cases, if_cases, All,
}
use open_esl.Utility.ObjectPool.{
  Pooled, Pool, is_timeout_or_dirty, wakeup_loop, timeout_handler_wakeup, unexpired, purge,
}

-- The object's lifetime, if it has one, has gone by.
abbrev pub IsExpired : Pool → ℕ → Pooled → Type 0
IsExpired p now x = (0 < p.object_lifetime) × (x.time_point_begin + p.object_lifetime ≤ now)

abbrev pub Any : (Pooled → Type 0) → List Pooled → Type 0
Any P [] = ⊥
Any P (x ∷ xs) = P x ⊎ Any P xs

-- `ys` is `xs` without some objects that fulfil `P`, in the same order.
pub data Drops (P : Pooled → Type 0) : List Pooled → List Pooled → Type 0 where
  done : Drops P [] []
  keep : (x : Pooled) {xs ys : List Pooled} → Drops P xs ys → Drops P (x ∷ xs) (x ∷ ys)
  drops : (x : Pooled) {xs ys : List Pooled} → P x → Drops P xs ys → Drops P (x ∷ xs) ys

IsExpired-iff :
    (p : Pool) (x : Pooled) (now : ℕ)
    → ((is_timeout_or_dirty p x now ≡ true) → IsExpired p now x)
      × ((is_timeout_or_dirty p x now ≡ false) → ¬ IsExpired p now x)
unfolding is_timeout_or_dirty
IsExpired-iff p x now = (λ h. ground arith, λ h k. ground arith)

unexpired-Drops :
    (p : Pool) (now : ℕ) (xs : List Pooled)
    → p.destructor_called ≡ false
    → Drops (IsExpired p now) xs (unexpired p now xs)
      × All (λ x. ¬ IsExpired p now x) (unexpired p now xs)
unfolding unexpired
unexpired-Drops p now [] h = (done, tt)
unexpired-Drops p now (x ∷ xs) h =
    let (ih, all) = unexpired-Drops p now xs h in
    elim (Bool-cases (is_timeout_or_dirty p x now)) [
      | inl e ↦ simp (h, e) (drops x ((IsExpired-iff p x now).0 e) ih, all)
      | inr e ↦ simp (h, e) (keep x ih, ((IsExpired-iff p x now).1 e, all))
    ]

unexpired-destroyed :
    (p : Pool) (now : ℕ) (xs : List Pooled) → p.destructor_called ≡ true → unexpired p now xs ≡ []
unfolding unexpired
unexpired-destroyed p now [] h = refl
unexpired-destroyed p now (x ∷ xs) h = simp h (unexpired-destroyed p now xs h)

-- While the destructor has not been called, a round of the timeout thread erases exactly the objects
-- whose lifetime has gone by, and keeps the order of the others.
pub purge-Drops :
    (p : Pool) (now : ℕ)
    → p.destructor_called ≡ false
    → Drops (IsExpired p now) p.objects (purge p now).objects
      × All (λ x. ¬ IsExpired p now x) (purge p now).objects
unfolding purge
purge-Drops p now = unexpired-Drops p now p.objects

-- Once the destructor has been called, a round of the timeout thread erases every object of the
-- pool.
purge_destroyed : (p : Pool) (now : ℕ) → p.destructor_called ≡ true → (purge p now).objects ≡ []
unfolding purge
purge_destroyed p now = unexpired-destroyed p now p.objects

-- `w` is no later than the end of any object's lifetime that is still to come, and is one of them.
record IsNext (lifetime now : ℕ) (xs : List Pooled) (before w : ℕ) : Type 0 where
  falls : (before ≡ 0) ⊎ ((0 < w) × (w ≤ before))
  all :
      All
        (λ x.
          (x.time_point_begin + lifetime ≤ now)
          ⊎ ((0 < w) × (now + w ≤ x.time_point_begin + lifetime)))
        xs
  one : (w ≡ before) ⊎ Any (λ x. now + w ≡ x.time_point_begin + lifetime) xs

module _ (lifetime now before w w1 : ℕ) (x : Pooled) (xs : List Pooled) where
  expired-IsNext :
      x.time_point_begin + lifetime ≤ now
      → IsNext lifetime now xs before w
      → IsNext lifetime now (x ∷ xs) before w
  expired-IsNext h n = record {
    falls = n.falls;
    all = (inl h, n.all);
    one = elim n.one [ inl e ↦ inl e | inr a ↦ inr (inr a) ];
  }

  sooner-IsNext :
      now < x.time_point_begin + lifetime
      → w1 ≡ x.time_point_begin + lifetime - now
      → (before ≡ 0) ⊎ (w1 < before)
      → IsNext lifetime now xs w1 w
      → IsNext lifetime now (x ∷ xs) before w
  sooner-IsNext h e k n = record {
    falls = ground (arith, n.falls);
    all = (inr (omega (arith, n.falls)), n.all);
    one = elim n.one [ inl d ↦ inr (inl (omega arith)) | inr a ↦ inr (inr a) ];
  }

  later-IsNext :
      now < x.time_point_begin + lifetime
      → before ≢ 0
      → before ≤ x.time_point_begin + lifetime - now
      → IsNext lifetime now xs before w
      → IsNext lifetime now (x ∷ xs) before w
  later-IsNext h e k n = record {
    falls = n.falls;
    all = (inr (ground (arith, n.falls)), n.all);
    one = elim n.one [ inl d ↦ inl d | inr a ↦ inr (inr a) ];
  }

wakeup_loop-IsNext :
    (lifetime now before : ℕ) (xs : List Pooled)
    → IsNext lifetime now xs before (wakeup_loop lifetime now before xs)
unfolding wakeup_loop
wakeup_loop-IsNext lifetime now before [] = record {
  falls = ground arith;
  all = tt;
  one = inl refl;
}
wakeup_loop-IsNext lifetime now before (x ∷ xs) =
    let deadline = x.time_point_begin + lifetime in
    let P = λ (b : ℕ). IsNext lifetime now (x ∷ xs) before (wakeup_loop lifetime now b xs) in
    if_cases P (leb deadline now) before _
      (λ e.
        expired-IsNext lifetime now before _ before x xs (ground arith)
          (wakeup_loop-IsNext lifetime now before xs))
      (λ e.
        if_cases P (ltb (deadline - now) before || before == 0) (deadline - now) before
          (λ d.
            sooner-IsNext lifetime now before _ (deadline - now) x xs (ground arith) refl
              (ground arith) (wakeup_loop-IsNext lifetime now (deadline - now) xs))
          (λ d.
            later-IsNext lifetime now before _ before x xs (ground arith) (λ z. ground arith)
              (ground arith) (wakeup_loop-IsNext lifetime now before xs)))

-- The time that the thread waits is 0 only if no object has lifetime left. Otherwise the end of the
-- wait is the end of the lifetime of one object, and not after that of any object whose lifetime
-- has not gone by.
pub timeout_handler_wakeup_lem :
    (p : Pool) (now : ℕ)
    → let w = timeout_handler_wakeup p now in
      ((w ≡ 0) ⊎ Any (λ x. now + w ≡ x.time_point_begin + p.object_lifetime) p.objects)
      × All
          (λ x.
            (x.time_point_begin + p.object_lifetime ≤ now)
            ⊎ ((0 < w) × (now + w ≤ x.time_point_begin + p.object_lifetime)))
          p.objects
unfolding timeout_handler_wakeup
timeout_handler_wakeup_lem p now =
    let n = wakeup_loop-IsNext p.object_lifetime now 0 p.objects in (n.one, n.all)
