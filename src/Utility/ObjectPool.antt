-- ===== src/Utility/ObjectPool.antt =====
-- features/common4esl/src/esl/utility/ObjectPool.h. Each definition is what one call does while it
-- holds `objectsMutex`; `now` is `steady_clock::now()`, in nanoseconds. An object stands for its
-- pointer. The count of circulating objects stays below 2 ^ 64.
pub mod Circulation
pub mod Lifetime
pub mod Order
mod Tests
use open_esl.Prelude.{
  ℕ, ◌+◌, ◌-◌, ◌*◌, ◌^◌, refl, ap, Bool, true, false, not, ◌&&◌, ◌||◌, Option, none, some, List, [],
  ◌∷◌, ◌++◌, ltb, leb, ◌==◌, if◌then◌else◌, take,
}

pub data Strategy : Type 0 where
  lifo fifo : Strategy

-- A `unique_ptr` of the pool: the object with the `timePointBegin` of its deleter.
pub record Pooled : Type 0 where
  pub object : ℕ
  pub time_point_begin : ℕ

pub record Config : Type 0 where
  pub objects_max : ℕ
  pub object_lifetime : ℕ
  pub reset_lifetime_on_get : Bool
  pub reset_lifetime_on_release : Bool

pub record Pool : Type 0 where
  pub config : Config
  pub open config use *
  pub objects : List Pooled
  pub objects_circulating : ℕ
  pub destructor_called : Bool

unfoldable pub init : Config → Pool
init c = record { config = c; objects = []; objects_circulating = 0; destructor_called = false }

unfoldable pub check_get_object : Pool → Bool
check_get_object p =
    p.destructor_called || p.objects_max == 0 || ltb p.objects_circulating p.objects_max

-- What a call of `get` comes to: it goes on waiting, returns a null pointer, returns an object, or
-- `createObject` throws.
pub data Got : Type 0 where
  waits : Got
  null : Got
  got : Pooled → Got
  throws : Got

-- `objects.back()` and `pop_back()`
unfoldable pub back : Pooled → List Pooled → Pooled
back x [] = x
back x (y ∷ ys) = back y ys

unfoldable pub pop_back : Pooled → List Pooled → List Pooled
pop_back x [] = []
pop_back x (y ∷ ys) = x ∷ pop_back y ys

-- An object that is in the pool, by the strategy, with its lifetime reset if asked for.
unfoldable pub reuse : Pool → Strategy → ℕ → Pooled → List Pooled → Pool × Got
unfolding back pop_back
reuse p strategy now x xs =
    let taken : Pooled = elim strategy [ lifo ↦ back x xs | fifo ↦ x ] in
    let rest : List Pooled = elim strategy [ lifo ↦ pop_back x xs | fifo ↦ xs ] in
    (
      record p { objects = rest },
      got (if p.reset_lifetime_on_get then record taken { time_point_begin = now } else taken),
    )

-- `objects.empty()`, and `createObject()`: `none` is an exception. That it returns a null pointer is
-- not modelled.
unfoldable pub take_object : Pool → Strategy → ℕ → Option ℕ → List Pooled → Pool × Got
unfolding reuse
take_object p strategy now created [] = elim created [
  | none ↦ (p, throws)
  | some object ↦ (p, got (record { object = object; time_point_begin = now }))
]
take_object p strategy now created (x ∷ xs) = reuse p strategy now x xs

-- `get`, seen when `elapsed` has gone by since the call. A `timeout` of 0 waits without limit.
unfoldable pub get : Pool → ℕ → ℕ → Strategy → ℕ → Option ℕ → Pool × Got
unfolding check_get_object take_object
get p timeout elapsed strategy now created =
    if ltb 0 p.objects_max && not (check_get_object p)
    then if ltb 0 timeout && leb timeout elapsed then (p, null) else (p, waits)
    else if p.destructor_called
    then (p, null)
    else take_object (record p { objects_circulating = p.objects_circulating + 1 }) strategy now
        created p.objects

-- `isDirty` of the general template.
unfoldable pub is_dirty : ℕ → Bool
is_dirty object = false

unfoldable pub is_timeout_or_dirty : Pool → Pooled → ℕ → Bool
unfolding is_dirty
is_timeout_or_dirty p x now =
    (ltb 0 p.object_lifetime && leb (x.time_point_begin + p.object_lifetime) now)
    || is_dirty x.object

-- `--objectsCirculating` of a `size_t`
unfoldable pub decrement : ℕ → ℕ
decrement n = if n == 0 then 2 ^ 64 - 1 else n - 1

-- `release`, which a deleter calls with an object that is not null.
unfoldable pub release : Pool → Pooled → ℕ → Pool
unfolding is_timeout_or_dirty decrement
release p x now =
    let begin = if p.reset_lifetime_on_release then now else x.time_point_begin in
    let kept = p.objects ++ (record { object = x.object; time_point_begin = begin }) ∷ [] in
    record p {
      objects =
          if p.destructor_called
          then p.objects
          else if is_timeout_or_dirty p x now
          then p.objects
          else kept;
      objects_circulating = decrement p.objects_circulating;
    }

-- The first loop of `timeoutHandler`: the time to wait, or 0 to wait for a notification.
unfoldable pub wakeup_loop : ℕ → ℕ → ℕ → List Pooled → ℕ
wakeup_loop lifetime now wakeup [] = wakeup
wakeup_loop lifetime now wakeup (x ∷ xs) =
    let remaining = x.time_point_begin + lifetime - now in
    wakeup_loop lifetime now
      (if leb (x.time_point_begin + lifetime) now
        then wakeup
        else if ltb remaining wakeup || wakeup == 0
        then remaining
        else wakeup)
      xs

unfoldable pub timeout_handler_wakeup : Pool → ℕ → ℕ
unfolding wakeup_loop
timeout_handler_wakeup p now = wakeup_loop p.object_lifetime now 0 p.objects

-- The second loop: the objects that are not erased.
unfoldable pub unexpired : Pool → ℕ → List Pooled → List Pooled
unfolding is_timeout_or_dirty
unexpired p now [] = []
unexpired p now (x ∷ xs) =
    if p.destructor_called || is_timeout_or_dirty p x now
    then unexpired p now xs
    else x ∷ unexpired p now xs

unfoldable pub purge : Pool → ℕ → Pool
unfolding unexpired
purge p now = record p { objects = unexpired p now p.objects }

-- What the destructor does under the lock.
unfoldable pub destroy : Pool → Pool
destroy p = record p { destructor_called = true }
