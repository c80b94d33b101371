-- ===== src/Utility/SessionPool/Forgetting.antt =====
-- Sessions that are dropped while they circulate.
use open_esl.Prelude.{
  ℕ, ◌+◌, ◌≡◌, refl, ap, ◌∙◌, true, false, not, ◌&&◌, ◌||◌, none, some, arith, ltb, ◌==◌,
  if◌then◌else◌, ==-refl, if_true, if_false,
}
use open_esl.Utility.SessionPool.{
  StoredObject, Pool, assign, check_get_object, is_timeout_or_dirty, Got, got, get, take_object,
  keep_object, decrement, release_object, release, unexpired, purge,
}

module _ (p : Pool) (key now : ℕ) (x : StoredObject) (stored : p.objects key ≡ some x)
    (expired : is_timeout_or_dirty p x now ≡ true) where
  purge-drops : (purge p now).objects key ≡ none
  unfolding purge unexpired
  purge-drops =
      ap (unexpired p now) stored
      ∙ if_true (p.destructor_called || is_timeout_or_dirty p x now) _ _ (ground (arith, expired))

  -- The session that `get` makes for the key then.
  abbrev pub renewed : ℕ → ℕ → StoredObject
  renewed object t = record { object = object; circulating = 1; time_point_begin = t }

  abbrev pub with_renewed : ℕ → ℕ → Pool
  with_renewed object t = record (purge p now) {
    objects_circulating = p.objects_circulating + 1;
    objects = assign key (some (renewed object t)) (purge p now).objects;
  }

  get-renewed :
      (timeout elapsed t object : ℕ)
      → p.destructor_called ≡ false
      → check_get_object p ≡ true
      → get (purge p now) key timeout elapsed t (some object) ≡ (with_renewed object t, got object)
  unfolding get take_object check_get_object purge
  get-renewed timeout elapsed t object alive free =
      if_false (ltb 0 p.objects_max && not (check_get_object p)) _ _ (ground (arith, free))
      ∙ if_false p.destructor_called _ _ alive
      ∙ ap
          (take_object (record (purge p now) { objects_circulating = p.objects_circulating + 1 })
            key t (some object))
          purge-drops

  release-renewed :
      (object t later : ℕ)
      → p.destructor_called ≡ false
      → is_timeout_or_dirty p (record (renewed object t) { circulating = 0 }) later ≡ false
      → ((release (with_renewed object t) key later).objects key
          ≡ some (record {
            object = object;
            circulating = 0;
            time_point_begin = if p.reset_lifetime_on_release then later else t;
          }))
        × ((release (with_renewed object t) key later).objects_circulating ≡ p.objects_circulating)
  unfolding release release_object keep_object decrement purge
  release-renewed object t later alive young =
      let w = with_renewed object t in
      let there : release w key later ≡ release_object w key later (some (renewed object t)) =
        ap (release_object w key later) (if_true (key == key) _ _ (==-refl key)) in
      let unused : StoredObject = record (renewed object t) { circulating = 0 } in
      (
        ap (λ (q : Pool). q.objects key) there
            ∙ if_true (key == key) _ _ (==-refl key)
            ∙ if_false p.destructor_called _ _ alive
            ∙ if_false (is_timeout_or_dirty p unused later) _ _ young,
        ap (λ (q : Pool). q.objects_circulating) there
            ∙ if_false (p.objects_circulating + 1 == 0) _ _ (ground arith)
            ∙ omega arith,
      )

  -- A round of the timeout thread drops a session whose lifetime has passed even while pointers to
  -- its object are held. If such a pointer is released before another `get` of its key, nothing
  -- changes, and the pool goes on counting it as circulating. If `get` of the key comes first and
  -- does not have to wait, it makes a second object for the key, and the release of the old pointer
  -- then counts down the session of the new one: that is not used as far as the pool knows, though
  -- the caller of `get` holds its pointer. The destructor has not been called, and the lifetime of
  -- the new session has not passed when the old pointer is released.
  pub release-purge_forgets :
      (timeout elapsed t object later : ℕ)
      → p.destructor_called ≡ false
      → check_get_object p ≡ true
      → is_timeout_or_dirty p
          (record { object = object; circulating = 0; time_point_begin = t })
          later
        ≡ false
      → let got_second = get (purge p now) key timeout elapsed t (some object) in
        let after = release got_second.0 key later in
        (release (purge p now) key later ≡ purge p now)
        × ((purge p now).objects_circulating ≡ p.objects_circulating)
        × (got_second.1 ≡ got object)
        × (after.objects key
            ≡ some (record {
              object = object;
              circulating = 0;
              time_point_begin = if p.reset_lifetime_on_release then later else t;
            }))
        × (after.objects_circulating ≡ p.objects_circulating)
  unfolding release release_object purge
  release-purge_forgets timeout elapsed t object later alive free young =
      let made = get-renewed timeout elapsed t object alive free in
      let (counted, same) = release-renewed object t later alive young in
      (
        ap (release_object (purge p now) key later) purge-drops,
        refl,
        ap (λ (r : Pool × Got). r.1) made,
        ap (λ (r : Pool × Got). (release r.0 key later).objects key) made ∙ counted,
        ap (λ (r : Pool × Got). (release r.0 key later).objects_circulating) made ∙ same,
      )
