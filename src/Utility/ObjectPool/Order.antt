-- ===== src/Utility/ObjectPool/Order.antt =====
-- Which object `get` returns after a `release`.
use open_esl.Prelude.{
  ℕ, ◌+◌, ◌-◌, ◌≤◌, ◌<◌, ◌≡◌, refl, ap, ◌∙◌, ◌⊎◌, false, Option, List, [], ◌∷◌, ◌++◌, arith,
  if◌then◌else◌,
}
use open_esl.Utility.ObjectPool.{
  Strategy, lifo, fifo, Pooled, Pool, check_get_object, got, back, pop_back, reuse, take_object,
  get, is_timeout_or_dirty, decrement, release,
}

back-snoc : (x : Pooled) (xs : List Pooled) (y : Pooled) → back x (xs ++ y ∷ []) ≡ y
unfolding back
back-snoc x [] y = refl
back-snoc x (z ∷ zs) y = back-snoc z zs y

pop_back-snoc : (x : Pooled) (xs : List Pooled) (y : Pooled) → pop_back x (xs ++ y ∷ []) ≡ x ∷ xs
unfolding pop_back
pop_back-snoc x [] y = refl
pop_back-snoc x (z ∷ zs) y = ap (◌∷◌ x) (pop_back-snoc z zs y)

-- The object with the begin that a release, and then a `get`, give it.
abbrev pub released : Pool → Pooled → ℕ → Pooled
released p x now = record x {
  time_point_begin = if p.reset_lifetime_on_release then now else x.time_point_begin;
}

abbrev pub handed_out : Pool → Pooled → ℕ → Pooled
handed_out p x now = if p.reset_lifetime_on_get then record x { time_point_begin = now } else x

take_object_lifo :
    (p : Pool) (now : ℕ) (created : Option ℕ) (xs : List Pooled) (y : Pooled)
    → take_object p lifo now created (xs ++ y ∷ [])
      ≡ (record p { objects = xs }, got (handed_out p y now))
unfolding take_object reuse
take_object_lifo p now created [] y = unfold back pop_back in refl
take_object_lifo p now created (x ∷ xs) y = rw (back-snoc x xs y, pop_back-snoc x xs y)

get_room :
    (p : Pool) (timeout elapsed : ℕ) (strategy : Strategy) (now : ℕ) (created : Option ℕ)
    → p.destructor_called ≡ false
    → (p.objects_max ≡ 0) ⊎ (p.objects_circulating < p.objects_max)
    → get p timeout elapsed strategy now created
      ≡ take_object
          (record p { objects_circulating = p.objects_circulating + 1 })
          strategy
          now
          created
          p.objects
unfolding get check_get_object
get_room p timeout elapsed strategy now created alive room = ground arith

module _ (p : Pool) (x : Pooled) (now : ℕ) (alive : p.destructor_called ≡ false)
    (fresh : is_timeout_or_dirty p x now ≡ false) (circulates : 0 < p.objects_circulating)
    (limit : (p.objects_max ≡ 0) ⊎ (p.objects_circulating ≤ p.objects_max)) where
  kept : Pool
  kept = record p {
    objects = p.objects ++ released p x now ∷ [];
    objects_circulating = p.objects_circulating - 1;
  }

  release-kept : release p x now ≡ kept
  unfolding release decrement kept
  release-kept = ground arith

  get-release :
      (timeout elapsed : ℕ) (strategy : Strategy) (later : ℕ) (created : Option ℕ)
      → get (release p x now) timeout elapsed strategy later created
        ≡ take_object
            (record p { objects = p.objects ++ released p x now ∷ [] })
            strategy
            later
            created
            (p.objects ++ released p x now ∷ [])
  unfolding kept
  get-release timeout elapsed strategy later created =
      ap (λ q. get q timeout elapsed strategy later created) release-kept
      ∙ get_room kept timeout elapsed strategy later created alive (ground arith)
      ∙ ap
          (λ n.
            take_object
              (record p { objects = p.objects ++ released p x now ∷ []; objects_circulating = n })
              strategy later created (p.objects ++ released p x now ∷ []))
          (omega arith)

  -- Releasing an object that circulates and whose lifetime has not gone by, in a pool whose
  -- destructor has not been called and whose limit is kept, and then a `get` under `lifo`, returns
  -- that object and leaves the pool as it was before the release.
  get-release_lifo :
      (timeout elapsed later : ℕ) (created : Option ℕ)
      → get (release p x now) timeout elapsed lifo later created
        ≡ (p, got (handed_out p (released p x now) later))
  get-release_lifo timeout elapsed later created =
      get-release timeout elapsed lifo later created
      ∙ take_object_lifo (record p { objects = p.objects ++ released p x now ∷ [] }) later created
          p.objects (released p x now)

  -- After the release of an object that circulates and whose lifetime has not gone by, in a pool
  -- that is not empty, whose destructor has not been called and whose limit is kept, a `get` under
  -- `fifo` returns the object that has been in the pool longest, and the released one is the last
  -- of those that stay.
  get-release_fifo :
      (timeout elapsed later : ℕ) (created : Option ℕ) (y : Pooled) (ys : List Pooled)
      → p.objects ≡ y ∷ ys
      → get (release p x now) timeout elapsed fifo later created
        ≡ (record p { objects = ys ++ released p x now ∷ [] }, got (handed_out p y later))
  get-release_fifo timeout elapsed later created y ys e =
      get-release timeout elapsed fifo later created ∙ oldest
    where
      oldest :
          take_object
            (record p { objects = p.objects ++ released p x now ∷ [] })
            fifo
            later
            created
            (p.objects ++ released p x now ∷ [])
          ≡ (record p { objects = ys ++ released p x now ∷ [] }, got (handed_out p y later))
      oldest = unfold take_object reuse in ground arith
