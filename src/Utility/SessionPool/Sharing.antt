-- ===== src/Utility/SessionPool/Sharing.antt =====
-- The sessions and the pointers to them, over all orders of calls.
use open_esl.Prelude.{
  ℕ, ◌+◌, ◌<◌, ◌≡◌, refl, sym, ap, ◌∙◌, ◌⊎◌, inl, inr, false, not, ◌&&◌, Option, none, some, List,
  [], ◌∷◌, ◌++◌, arith, ltb, leb, ◌==◌, if◌then◌else◌, Option-cases, if_cases, length,
}
use open_esl.Utility.SessionPool.{
  StoredObject, Config, Pool, init, check_get_object, take_object, get, decrement, keep_object,
  release_object, release, purge, destroy,
}
use open_esl.Utility.SessionPool.Calls.{
  Pointer, System, after_get, count, uses, Step, gets, releases, purges, destroys, Reach, start,
  next, Shared, count-append, length-middle, assign-All,
}

module _ (c : Config) (s : System) (key now created : ℕ) where
  abbrev taking : Option StoredObject → System
  taking found = after_get s key (
      take_object (record s.pool { objects_circulating = s.pool.objects_circulating + 1 }) key now
        (some created) found)

  taking-Shared :
      (found : Option StoredObject)
      → s.pool.objects key ≡ found
      → Shared c s
      → (c.objects_max ≡ 0) ⊎ (s.pool.objects_circulating < c.objects_max)
      → Shared c (taking found)
  unfolding take_object
  taking-Shared none e v room = record {
    same_config = v.same_config;
    counted = λ k o.
        assign-All (λ j y. count j o ((record { key = key; object = created }) ∷ s.held) ≡ uses o y)
          key _ s.pool.objects (ground (arith, v.counted key o, ap (uses o) e))
          (λ j d. ground (arith, v.counted j o)) k;
    total = omega (arith, v.total);
    bounded = ground arith;
  }
  taking-Shared (some x) e v room = record {
    same_config = v.same_config;
    counted = λ k o.
        assign-All
          (λ j y. count j o ((record { key = key; object = x.object }) ∷ s.held) ≡ uses o y) key _
          s.pool.objects (ground (arith, v.counted key o, ap (uses o) e))
          (λ j d. ground (arith, v.counted j o)) k;
    total = omega (arith, v.total);
    bounded = ground arith;
  }

get-Shared :
    (c : Config) (s : System) (key timeout elapsed now created : ℕ)
    → Shared c s
    → Shared c (after_get s key (get s.pool key timeout elapsed now (some created)))
unfolding get
get-Shared c s key timeout elapsed now created v =
    if_cases (λ r. Shared c (after_get s key r))
      (ltb 0 s.pool.objects_max && not (check_get_object s.pool)) _ _
      (λ e.
        if_cases (λ r. Shared c (after_get s key r)) (ltb 0 timeout && leb timeout elapsed) _ _
          (λ d. v) (λ d. v))
      (λ e.
        if_cases (λ r. Shared c (after_get s key r)) s.pool.destructor_called _ _ (λ d. v)
          (λ d. taking-Shared c s key now created (s.pool.objects key) refl v (room e d)))
  where
    room :
        (ltb 0 s.pool.objects_max && not (check_get_object s.pool)) ≡ false
        → s.pool.destructor_called ≡ false
        → (c.objects_max ≡ 0) ⊎ (s.pool.objects_circulating < c.objects_max)
    room e d =
        unfold check_get_object in ground (arith, ap (λ (k : Config). k.objects_max) v.same_config)

uses-keep_object :
    (o : ℕ) (p : Pool) (now : ℕ) (x : StoredObject) → uses o (keep_object p now x) ≡ uses o (some x)
unfolding keep_object
uses-keep_object o p now x = ground arith

module _ (c : Config) (s : System) (before : List Pointer) (x : Pointer) (behind : List Pointer)
    (now : ℕ) (e : s.held ≡ before ++ x ∷ behind) (v : Shared c s) where
  removed :
      (k o : ℕ)
      → count k o s.held
        ≡ (if x.key == k && x.object == o then 1 else 0) + count k o (before ++ behind)
  removed k o = omega (
    arith,
    ap (count k o) e,
    count-append k o before (x ∷ behind),
    count-append k o before behind,
  )

  released-Shared :
      (found : Option StoredObject)
      → s.pool.objects x.key ≡ found
      → Shared c (record { pool = release_object s.pool x.key now found; held = before ++ behind })
  unfolding release_object decrement
  released-Shared none h =
      absurd
        (ground (arith, removed x.key x.object, v.counted x.key x.object, ap (uses x.object) h))
  released-Shared (some y) h =
      let shrunk : StoredObject = record y { circulating = decrement y.circulating } in
      let held = ap length e ∙ length-middle before x behind in
      record {
        same_config = v.same_config;
        counted = λ k o.
            assign-All (λ j z. count j o (before ++ behind) ≡ uses o z) x.key
              (keep_object s.pool now shrunk) s.pool.objects
              (ground (
                arith,
                removed x.key o,
                removed x.key x.object,
                v.counted x.key o,
                v.counted x.key x.object,
                ap (uses o) h,
                ap (uses x.object) h,
                uses-keep_object o s.pool now shrunk,
              ))
              (λ j d. ground (arith, removed j o, v.counted j o)) k;
        total = ground (arith, held, v.total);
        bounded = ground (arith, held, v.total, v.bounded);
      }

Step-Shared : (c : Config) {s t : System} → Step s t → Shared c s → Shared c t
Step-Shared c {s} (gets key timeout elapsed now created t e) v =
    rw e (get-Shared c s key timeout elapsed now created v)
Step-Shared c {s} (releases before x behind now t held e) v =
    rw e
      (unfold release in released-Shared c s before x behind now held v (s.pool.objects x.key) refl)
Step-Shared c {s} (purges now t kept e) v = rw e (
    unfold purge in
    record {
      same_config = v.same_config;
      counted = λ k o. v.counted k o ∙ sym (kept k o);
      total = v.total;
      bounded = v.bounded;
    })
Step-Shared c {s} (destroys t e) v = rw e (
    unfold destroy in
    record {
      same_config = v.same_config;
      counted = v.counted;
      total = v.total;
      bounded = v.bounded;
    })

init-Shared : (c : Config) → Shared c (record { pool = init c; held = [] })
unfolding init
init-Shared c = record {
  same_config = refl;
  counted = λ k o. refl;
  total = refl;
  bounded = ground arith;
}

-- After any order of calls in which `createObject` does not throw and no round of the timeout thread
-- finds a session that it drops although it circulates, each session counts exactly the pointers
-- with its key, which all point to its object; the pool counts all pointers, and does not exceed a
-- limit.
pub Reach-Shared : (c : Config) {s : System} → Reach c s → Shared c s
Reach-Shared c (start s e) = rw e (init-Shared c)
Reach-Shared c (next s t r st) = Step-Shared c st (Reach-Shared c r)

-- Under the same conditions a pointer that a caller holds is that of the object which the pool
-- stores for its key.
held-stored :
    (c : Config) {s : System} (before : List Pointer) (x : Pointer) (behind : List Pointer)
    → Reach c s
    → s.held ≡ before ++ x ∷ behind
    → (y : StoredObject) × (s.pool.objects x.key ≡ some y) × (y.object ≡ x.object)
held-stored c {s} before x behind r e = elim (Option-cases (s.pool.objects x.key)) [
  | inl h ↦ absurd (ground (arith, found, ap (uses x.object) h))
  | inr (y, h) ↦ (y, h, ground (arith, found, ap (uses x.object) h))
]
  where
    found : 0 < uses x.object (s.pool.objects x.key)
    found = ground (
      arith,
      (Reach-Shared c r).counted x.key x.object,
      removed c s before x behind 0 e (Reach-Shared c r) x.key x.object,
    )
