-- ===== src/Utility/MessageTimer.antt =====
-- features/common4esl/src/esl/utility/MessageTimer.h. Points in time and durations are in
-- nanoseconds; the key 0 stands for `Key()`, and a priority for the value of the `short` plus
-- 32768, so that the order is the same. Each definition is what is done under one lock.
pub mod Urgency
pub mod Sleep
pub mod Keys
mod Tests
use open_esl.Prelude.{
  ℕ, zero, suc, ◌+◌, ◌-◌, refl, ap, Bool, true, false, not, Option, none, some, List, [], ◌∷◌, ◌++◌,
  map, ltb, ◌==◌, if◌then◌else◌, take,
}

pub record MessageType : Type 0 where
  pub key : ℕ
  pub message : ℕ
  pub movable : Bool
  pub priority : ℕ
  pub time_point : ℕ
  pub timer : ℕ

-- The two constructors of `MessageType`.
unfoldable pub at_time_point : ℕ → ℕ → ℕ → MessageType
at_time_point key message time_point = record {
  key = key;
  message = message;
  movable = false;
  priority = 32768;
  time_point = time_point;
  timer = 0;
}

unfoldable pub after_timer : ℕ → ℕ → ℕ → Bool → ℕ → ℕ → MessageType
after_timer key message timer movable priority now = record {
  key = key;
  message = message;
  movable = movable;
  priority = priority;
  time_point = now + timer;
  timer = timer;
}

-- The first message with the key is erased.
unfoldable pub erase_key : ℕ → List MessageType → List MessageType
erase_key key [] = []
erase_key key (x ∷ xs) = if x.key == key then xs else x ∷ erase_key key xs

unfoldable pub add_message_type : MessageType → List MessageType → List MessageType
unfolding erase_key
add_message_type m message_types =
    (if not (m.key == 0) then erase_key m.key message_types else message_types) ++ m ∷ []

-- Both overloads of `addMessage`, up to the locks that they take.
unfoldable pub add_message_at : ℕ → ℕ → ℕ → List MessageType → List MessageType
unfolding at_time_point add_message_type
add_message_at key message time_point = add_message_type (at_time_point key message time_point)

unfoldable pub add_message_in : ℕ → ℕ → ℕ → Bool → ℕ → ℕ → List MessageType → List MessageType
unfolding after_timer add_message_type
add_message_in key message timer movable priority now =
    add_message_type (after_timer key message timer movable priority now)

-- Whether `iterMinTP` moves to an elapsed message.
unfoldable pub takes_over : Option (ℕ × MessageType) → MessageType → Bool
takes_over none x = true
takes_over (some (i, best)) x =
    if ltb x.priority best.priority
    then false
    else if ltb best.priority x.priority
    then true
    else ltb x.time_point best.time_point

-- The search for the most urgent elapsed message; an iterator is a position with its message.
unfoldable pub find_elapsed :
    ℕ → ℕ → Option (ℕ × MessageType) → List MessageType → Option (ℕ × MessageType)
unfolding takes_over
find_elapsed now i best [] = best
find_elapsed now i best (x ∷ xs) =
    find_elapsed now (i + 1)
      (if ltb now x.time_point then best else if takes_over best x then some (i, x) else best) xs

unfoldable pub erase_at : ℕ → List MessageType → List MessageType
erase_at i [] = []
erase_at zero (x ∷ xs) = xs
erase_at (suc i) (x ∷ xs) = x ∷ erase_at i xs

-- A movable message starts its time anew.
unfoldable pub reset_movable : ℕ → MessageType → MessageType
reset_movable now x = if x.movable then record x { time_point = now + x.timer } else x

-- What the first lock of a round of `run` covers: the messages that stay, and the one to handle.
unfoldable pub take_elapsed : ℕ → List MessageType → List MessageType × Option ℕ
unfolding find_elapsed erase_at reset_movable
take_elapsed now message_types = elim (find_elapsed now 0 none message_types) [
  | none ↦ (message_types, none)
  | some (i, x) ↦ (map (reset_movable now) (erase_at i message_types), some x.message)
]

pub data State : Type 0 where
  no_wait : State
  wait : State
  wait_for : ℕ → State

-- The earliest point in time of the messages.
unfoldable pub earliest : MessageType → List MessageType → ℕ
earliest x [] = x.time_point
earliest x (y ∷ ys) = if ltb y.time_point x.time_point then earliest y ys else earliest x ys

-- What the second lock covers: how the next round waits.
unfoldable pub next_state : ℕ → List MessageType → State
unfolding earliest
next_state now [] = wait
next_state now (x ∷ xs) =
    if ltb now (earliest x xs) then wait_for (earliest x xs - now) else no_wait

-- The timer; `running` is also set to false by the handler's own call of `stop`.
pub record Timer : Type 0 where
  pub running : Bool
  pub message_types : List MessageType
  pub state : State

-- The start of `run`: false, and nothing else, if it runs already.
unfoldable pub start_run : Timer → Timer × Bool
start_run t = if t.running then (t, false) else (record t { running = true; state = no_wait }, true)

unfoldable pub stop : Timer → Timer
stop t = record t { running = false }

-- The first lock of a round, and the handler, which is called with the message and may add messages
-- and stop the timer: that is what `handler` does to the timer.
unfoldable pub handle : ℕ → (ℕ → Timer → Timer) → Timer → Timer
unfolding take_elapsed
handle now handler t =
    let quiet = record t { message_types = (take_elapsed now t.message_types).0 } in
    elim (take_elapsed now t.message_types).1 [ none ↦ quiet | some m ↦ handler m quiet ]

-- One round of the loop after its wait: `none` leaves the loop. The times are those of the two locks.
unfoldable pub run_round : ℕ → ℕ → (ℕ → Timer → Timer) → Timer → Option Timer
unfolding handle next_state
run_round now later handler t =
    let handled = handle now handler t in
    if t.running
    then some (record handled { state = next_state later handled.message_types })
    else none
