-- ===== src/Utility/ObjectPool/Circulation.antt =====
-- The objects inside and outside the pool, over all orders of calls.
use open_esl.Prelude.{
  ℕ, suc, ◌+◌, ◌≤◌, ◌<◌, ◌≡◌, refl, ap, ◌∙◌, ◌⊎◌, false, not, ◌&&◌, Option, some, List, [], ◌∷◌,
  ◌++◌, arith, ltb, leb, ◌==◌, if◌then◌else◌, if_cases, length,
}
use open_esl.Utility.ObjectPool.{
  check_get_object, decrement, Strategy, Pooled, Config, Pool, init, Got, waits, null, got, throws,
  back, pop_back, reuse, take_object, get, release, unexpired, purge, destroy,
}

-- The pool, the objects that callers of `get` hold, and how often `createObject` has thrown.
pub record System : Type 0 where
  pub pool : Pool
  pub held : List Pooled
  pub failures : ℕ

-- What a call of `get` leaves with its caller.
abbrev pub after_get : System → Pool × Got → System
after_get s (p, waits) = record s { pool = p }
after_get s (p, null) = record s { pool = p }
after_get s (p, got x) = record s { pool = p; held = x ∷ s.held }
after_get s (p, throws) = record s { pool = p; failures = s.failures + 1 }

abbrev pub count : ℕ → List Pooled → ℕ
count a [] = 0
count a (x ∷ xs) = (if x.object == a then 1 else 0) + count a xs

-- One call, or one round of the timeout thread. `createObject` returns an object that nobody has,
-- and only what is held is released.
pub data Step (s : System) : System → Type 0 where
  gets :
      (timeout elapsed : ℕ) (strategy : Strategy) (now : ℕ) (created : Option ℕ) (t : System)
      → ((a : ℕ) → created ≡ some a → count a s.pool.objects + count a s.held ≡ 0)
      → t ≡ after_get s (get s.pool timeout elapsed strategy now created)
      → Step s t
  releases :
      (before : List Pooled) (x : Pooled) (behind : List Pooled) (now : ℕ) (t : System)
      → s.held ≡ before ++ x ∷ behind
      → t ≡ record s { pool = release s.pool x now; held = before ++ behind }
      → Step s t
  purges : (now : ℕ) (t : System) → t ≡ record s { pool = purge s.pool now } → Step s t
  destroys : (t : System) → t ≡ record s { pool = destroy s.pool } → Step s t

pub data Reach (c : Config) : System → Type 0 where
  start : (s : System) → s ≡ record { pool = init c; held = []; failures = 0 } → Reach c s
  next : (s t : System) → Reach c s → Step s t → Reach c t

-- The count is that of the objects outside and of the failures, it respects the limit, and no
-- object is in two places.
pub record Inv (c : Config) (s : System) : Type 0 where
  pub same_config : s.pool.config ≡ c
  pub counted : s.pool.objects_circulating ≡ length s.held + s.failures
  pub bounded : (c.objects_max ≡ 0) ⊎ (s.pool.objects_circulating ≤ c.objects_max)
  pub unshared : (a : ℕ) → count a s.pool.objects + count a s.held ≤ 1

count-append :
    (object : ℕ) (before behind : List Pooled)
    → count object before + count object behind ≡ count object (before ++ behind)
count-append object [] behind = omega arith
count-append object (first ∷ before) behind = omega (arith, count-append object before behind)

count-back :
    (a : ℕ) (x : Pooled) (xs : List Pooled)
    → count a (x ∷ xs) ≡ count a (pop_back x xs) + (if (back x xs).object == a then 1 else 0)
unfolding back pop_back
count-back a x [] = omega arith
count-back a x (y ∷ ys) = omega (arith, count-back a y ys)

count-unexpired :
    (a : ℕ) (p : Pool) (now : ℕ) (xs : List Pooled) → count a (unexpired p now xs) ≤ count a xs
unfolding unexpired
count-unexpired a p now [] = omega arith
count-unexpired a p now (x ∷ xs) = ground (arith, count-unexpired a p now xs)

length-middle :
    (xs : List Pooled) (x : Pooled) (ys : List Pooled)
    → length (xs ++ x ∷ ys) ≡ suc (length (xs ++ ys))
length-middle [] x ys = refl
length-middle (z ∷ xs) x ys = ap suc (length-middle xs x ys)

-- What `get` leaves, for the objects `xs` of the pool.
module _ (c : Config) (s : System) (strategy : Strategy) (now : ℕ) (created : Option ℕ) where
  abbrev taking : List Pooled → System
  taking xs = after_get s (
      take_object (record s.pool { objects_circulating = s.pool.objects_circulating + 1 }) strategy
        now created xs)

  taking-Inv :
      (xs : List Pooled)
      → s.pool.objects ≡ xs
      → Inv c s
      → (c.objects_max ≡ 0) ⊎ (s.pool.objects_circulating < c.objects_max)
      → ((a : ℕ) → created ≡ some a → count a s.pool.objects + count a s.held ≡ 0)
      → Inv c (taking xs)
  unfolding take_object reuse
  taking-Inv [] e v room fresh = record {
    same_config = ground (arith, v.same_config);
    counted = ground (arith, v.counted);
    bounded = ground arith;
    unshared = λ a. ground (arith, v.unshared a, fresh a);
  }
  taking-Inv (x ∷ xs) e v room fresh = record {
    same_config = ground (arith, v.same_config);
    counted = ground (arith, v.counted);
    bounded = ground arith;
    unshared = λ a. ground (arith, v.unshared a, count-back a x xs);
  }

get-Inv :
    (c : Config) (s : System) (timeout elapsed : ℕ) (strategy : Strategy) (now : ℕ)
    (created : Option ℕ)
    → Inv c s
    → ((a : ℕ) → created ≡ some a → count a s.pool.objects + count a s.held ≡ 0)
    → Inv c (after_get s (get s.pool timeout elapsed strategy now created))
unfolding get
get-Inv c s timeout elapsed strategy now created v fresh =
    if_cases (λ r. Inv c (after_get s r))
      (ltb 0 s.pool.objects_max && not (check_get_object s.pool)) _ _
      (λ e.
        if_cases (λ r. Inv c (after_get s r)) (ltb 0 timeout && leb timeout elapsed) _ _ (λ d. v)
          (λ d. v))
      (λ e.
        if_cases (λ r. Inv c (after_get s r)) s.pool.destructor_called _ _ (λ d. v)
          (λ d. taking-Inv c s strategy now created s.pool.objects refl v (room e d) fresh))
  where
    room :
        (ltb 0 s.pool.objects_max && not (check_get_object s.pool)) ≡ false
        → s.pool.destructor_called ≡ false
        → (c.objects_max ≡ 0) ⊎ (s.pool.objects_circulating < c.objects_max)
    room e d =
        unfold check_get_object in ground (arith, ap (λ (k : Config). k.objects_max) v.same_config)

release-Inv :
    (c : Config) (s : System) (before : List Pooled) (x : Pooled) (behind : List Pooled) (now : ℕ)
    → s.held ≡ before ++ x ∷ behind
    → Inv c s
    → Inv c (record s { pool = release s.pool x now; held = before ++ behind })
unfolding release decrement
release-Inv c s before x behind now e v =
    let held = ap length e ∙ length-middle before x behind in
    record {
      same_config = v.same_config;
      counted = ground (arith, held, v.counted);
      bounded = ground (arith, held, v.counted, v.bounded);
      unshared = λ a. ground (
        arith,
        v.unshared a,
        ap (count a) e,
        count-append a before (x ∷ behind),
        count-append a before behind,
        count-append a s.pool.objects (x ∷ []),
        count-append a s.pool.objects ((record { object = x.object; time_point_begin = now }) ∷ []),
      );
    }

-- Every call and every round of the timeout thread keeps the invariant.
Step-Inv : (c : Config) {s t : System} → Step s t → Inv c s → Inv c t
Step-Inv c {s} (gets timeout elapsed strategy now created t fresh e) v =
    rw e (get-Inv c s timeout elapsed strategy now created v fresh)
Step-Inv c {s} (releases before x behind now t held e) v =
    rw e (release-Inv c s before x behind now held v)
Step-Inv c {s} (purges now t e) v = rw e (
    unfold purge in
    record {
      same_config = v.same_config;
      counted = v.counted;
      bounded = v.bounded;
      unshared = λ a. omega (arith, v.unshared a, count-unexpired a s.pool now s.pool.objects);
    })
Step-Inv c {s} (destroys t e) v = rw e (
    unfold destroy in
    record {
      same_config = v.same_config;
      counted = v.counted;
      bounded = v.bounded;
      unshared = v.unshared;
    })

init-Inv : (c : Config) → Inv c (record { pool = init c; held = []; failures = 0 })
unfolding init
init-Inv c = record {
  same_config = refl;
  counted = refl;
  bounded = ground arith;
  unshared = λ a. omega arith;
}

-- After any order of calls and rounds of the timeout thread, the pool counts the objects that are
-- outside and the calls of `createObject` that threw; a limit is never exceeded; and no object is
-- outside twice, or outside and in the pool.
pub Reach-Inv : (c : Config) {s : System} → Reach c s → Inv c s
Reach-Inv c (start s e) = rw e (init-Inv c)
Reach-Inv c (next s t r st) = Step-Inv c st (Reach-Inv c r)

-- When `createObject` has thrown as often as a limit above 0 allows objects, a pool whose
-- destructor has not been called has no object outside, and yet every `get` without a time limit
-- waits.
pub get-waits_after_failures :
    (c : Config) {s : System} (elapsed : ℕ) (strategy : Strategy) (now : ℕ) (created : Option ℕ)
    → Reach c s
    → 0 < c.objects_max
    → s.failures ≡ c.objects_max
    → s.pool.destructor_called ≡ false
    → (s.held ≡ []) × (get s.pool 0 elapsed strategy now created ≡ (s.pool, waits))
unfolding get check_get_object
get-waits_after_failures c {s} elapsed strategy now created r h f d =
    let v = Reach-Inv c r in
    let limit = ap (λ (k : Config). k.objects_max) v.same_config in
    (
      none_held s.held (omega (arith, v.counted, v.bounded)),
      ground (arith, limit, v.counted, v.bounded),
    )
  where
    none_held : (xs : List Pooled) → length xs ≡ 0 → xs ≡ []
    none_held [] e = refl
    none_held (x ∷ xs) e = absurd (omega arith)
