-- ===== src/System/TaskPool/Places.antt =====
-- The places of a task, and what the calls leave of them.
use open_esl.Prelude.{ℕ, ◌+◌, ◌≤◌, ◌≡◌, refl, [], ◌∷◌, arith, ltb, if◌then◌else◌, if_cases, length}
use open_esl.System.TaskPool.{
  System, init, push_task, create_thread, offer_thread, cancel_task, shut_down, mem,
}
use open_esl.System.TaskPool.Counts.{
  count, holds, runs, registers, sum, count-append, count-erase_first,
}

-- The places of a task: the queue, a thread that has not called its `run`, the calls of `run`, and
-- the tasks that were canceled.
abbrev places : ℕ → System → ℕ
places a s =
    (count a s.pool.queue + sum (holds a) s.threads) + (count a s.started + count a s.canceled)

-- Every task that was created is in one place, and no other task is anywhere; what runs is in
-- `started`; the keys of `threadsProcessing` are the tasks between insert and erase; the count is
-- that of the threads, and respects the limit.
pub record Inv (limit : ℕ) (s : System) : Type 0 where
  pub placed : (a : ℕ) → places a s ≡ (if ltb a s.next then 1 else 0)
  pub called : (a : ℕ) → sum (runs a) s.threads ≤ count a s.started
  pub registered : (a : ℕ) → count a s.pool.threads_processing ≡ sum (registers a) s.threads
  pub counted : s.pool.threads_available ≡ length s.threads
  pub bounded : s.pool.threads_available ≤ limit
  pub limited : s.pool.threads_max ≤ limit

pub init-Inv : (limit : ℕ) → Inv limit (init limit)
unfolding init
init-Inv limit = record {
  placed = λ a. ground arith;
  called = λ a. omega arith;
  registered = λ a. refl;
  counted = refl;
  bounded = omega arith;
  limited = omega arith;
}

pub push_task-Inv : (limit : ℕ) (s : System) → Inv limit s → Inv limit (push_task s)
unfolding push_task
push_task-Inv limit s v = record {
  placed = λ a. ground (arith, v.placed a, count-append a s.pool.queue (s.next ∷ []));
  called = v.called;
  registered = v.registered;
  counted = v.counted;
  bounded = v.bounded;
  limited = v.limited;
}

pub offer_thread-Inv : (limit : ℕ) (s : System) → Inv limit s → Inv limit (offer_thread s)
unfolding offer_thread create_thread
offer_thread-Inv limit s v =
    if_cases (Inv limit) (ltb s.pool.threads_available s.pool.threads_max) _ _
      (λ e. record {
        placed = λ a. omega (arith, v.placed a);
        called = λ a. omega (arith, v.called a);
        registered = λ a. omega (arith, v.registered a);
        counted = omega (arith, v.counted);
        bounded = ground (arith, v.limited);
        limited = v.limited;
      })
      (λ e. record {
        placed = v.placed;
        called = v.called;
        registered = v.registered;
        counted = v.counted;
        bounded = v.bounded;
        limited = v.limited;
      })

pub cancel_task-Inv : (limit a : ℕ) (s : System) → Inv limit s → Inv limit (cancel_task a s)
unfolding cancel_task
cancel_task-Inv limit a s v =
    if_cases (Inv limit) (mem a s.pool.queue) _ _
      (λ e. record {
        placed = λ b. omega (arith, v.placed b, count-erase_first a b s.pool.queue e);
        called = v.called;
        registered = v.registered;
        counted = v.counted;
        bounded = v.bounded;
        limited = v.limited;
      })
      (λ e. v)

pub shut_down-Inv : (limit : ℕ) (s : System) → Inv limit s → Inv limit (shut_down s)
unfolding shut_down
shut_down-Inv limit s v = record {
  placed = λ a. omega (arith, v.placed a, count-append a s.pool.queue s.canceled);
  called = v.called;
  registered = v.registered;
  counted = v.counted;
  bounded = v.bounded;
  limited = omega arith;
}
