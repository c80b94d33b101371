-- ===== src/Utility/SessionPool.antt =====
-- features/common4esl/src/esl/utility/SessionPool.h. Each definition is what one call does while it
-- holds `objectsMutex`; `now` is `steady_clock::now()`, in nanoseconds. The map is a function on the
-- keys, so its order is left out. An object stands for its pointer, and is not null. The counts stay
-- below 2 ^ 64.
pub mod Calls
pub mod Sharing
pub mod Forgetting
mod Tests
use open_esl.Prelude.{
  ℕ, ◌+◌, ◌-◌, ◌*◌, ◌^◌, refl, ap, Bool, true, false, not, ◌&&◌, ◌||◌, Option, none, some, ltb, leb,
  ◌==◌, if◌then◌else◌, take,
}

-- `StoredObject`
pub record StoredObject : Type 0 where
  pub object : ℕ
  pub circulating : ℕ
  pub time_point_begin : ℕ

pub record Config : Type 0 where
  pub objects_max : ℕ
  pub object_lifetime : ℕ
  pub reset_lifetime_on_get : Bool
  pub reset_lifetime_on_release : Bool

pub record Pool : Type 0 where
  pub config : Config
  pub open config use *
  pub objects : ℕ → Option StoredObject
  pub objects_circulating : ℕ
  pub destructor_called : Bool

unfoldable pub init : Config → Pool
init c = record {
  config = c;
  objects = λ _. none;
  objects_circulating = 0;
  destructor_called = false;
}

-- The map with another value, or none, for the key.
abbrev pub assign : ℕ → Option StoredObject → (ℕ → Option StoredObject) → ℕ → Option StoredObject
assign key x objects k = if k == key then x else objects k

unfoldable pub check_get_object : Pool → Bool
check_get_object p =
    p.destructor_called || p.objects_max == 0 || ltb p.objects_circulating p.objects_max

-- What a call of `get` comes to: it goes on waiting, returns a null pointer, returns the pointer of
-- an object, or `createObject` throws.
pub data Got : Type 0 where
  waits : Got
  null : Got
  got : ℕ → Got
  throws : Got

-- `get` from the test of `objects.find(key)` on. `created` is what `createObject` returns; `none` is
-- an exception.
unfoldable pub take_object : Pool → ℕ → ℕ → Option ℕ → Option StoredObject → Pool × Got
take_object p key now created (some x) = (
  record p { objects = assign key (some (record x { circulating = x.circulating + 1 })) p.objects },
  got x.object,
)
take_object p key now none none = (p, throws)
take_object p key now (some object) none = (
  record p {
    objects =
        assign key (some (record { object = object; circulating = 1; time_point_begin = now }))
          p.objects;
  },
  got object,
)

-- `get`, seen when `elapsed` has gone by since the call. A `timeout` of 0 waits without limit.
unfoldable pub get : Pool → ℕ → ℕ → ℕ → ℕ → Option ℕ → Pool × Got
unfolding check_get_object take_object
get p key timeout elapsed now created =
    if ltb 0 p.objects_max && not (check_get_object p)
    then if ltb 0 timeout && leb timeout elapsed then (p, null) else (p, waits)
    else if p.destructor_called
    then (p, null)
    else take_object (record p { objects_circulating = p.objects_circulating + 1 }) key now created
        (p.objects key)

-- `isDirty` of the general template.
unfoldable pub is_dirty : ℕ → Bool
is_dirty object = false

unfoldable pub is_timeout_or_dirty : Pool → StoredObject → ℕ → Bool
unfolding is_dirty
is_timeout_or_dirty p x now =
    (ltb 0 p.object_lifetime && leb (x.time_point_begin + p.object_lifetime) now)
    || is_dirty x.object

-- `--` of a `size_t`
unfoldable pub decrement : ℕ → ℕ
decrement n = if n == 0 then 2 ^ 64 - 1 else n - 1

-- What `release` leaves of a session whose `circulating` has been decremented.
unfoldable pub keep_object : Pool → ℕ → StoredObject → Option StoredObject
unfolding is_timeout_or_dirty
keep_object p now x =
    let begin = if p.reset_lifetime_on_release then now else x.time_point_begin in
    if p.destructor_called
    then some x
    else if x.circulating == 0
    then if is_timeout_or_dirty p x now then none else some (record x { time_point_begin = begin })
    else some x

unfoldable pub release_object : Pool → ℕ → ℕ → Option StoredObject → Pool
unfolding keep_object decrement
release_object p key now none = p
release_object p key now (some x) = record p {
  objects =
      assign key (keep_object p now (record x { circulating = decrement x.circulating })) p.objects;
  objects_circulating = decrement p.objects_circulating;
}

-- `release`, which the deleter of a pointer that is not null calls with its key.
unfoldable pub release : Pool → ℕ → ℕ → Pool
unfolding release_object
release p key now = release_object p key now (p.objects key)

unfoldable pub unexpired : Pool → ℕ → Option StoredObject → Option StoredObject
unfolding is_timeout_or_dirty
unexpired p now none = none
unexpired p now (some x) =
    if p.destructor_called || is_timeout_or_dirty p x now then none else some x

-- The second loop of `timeoutHandler`.
unfoldable pub purge : Pool → ℕ → Pool
unfolding unexpired
purge p now = record p { objects = λ k. unexpired p now (p.objects k) }

-- `~SessionPool` before it joins the thread.
unfoldable pub destroy : Pool → Pool
destroy p = record p { destructor_called = true }
