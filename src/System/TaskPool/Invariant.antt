-- ===== src/System/TaskPool/Invariant.antt =====
-- Where the tasks are, over all interleavings of the calls and of the threads.
use open_esl.Prelude.{
  ℕ, ◌+◌, ◌≤◌, ◌≡◌, refl, Bool, not, ◌||◌, List, [], ◌∷◌, ◌++◌, arith, ◌==◌, if◌then◌else◌,
  if_cases, is_empty,
}
use open_esl.System.TaskPool.{
  Pc, outer, inner_max, inner_queue, fetching, waiting, exiting, inserting, starting, running,
  fetch, advance, System, init, get_tasks, after_advance, Step, pushes, offers, cancels, shuts_down,
  advances, exits, Later, here, next_step,
}
use open_esl.System.TaskPool.Counts.{count, holds, runs, registers, count-append, sum-registers}
use open_esl.System.TaskPool.Places.{
  Inv, init-Inv, push_task-Inv, offer_thread-Inv, cancel_task-Inv, shut_down-Inv,
}
use open_esl.System.TaskPool.Moves.{
  move-Inv, fetch-Inv, insert-Inv, start-Inv, finish-Inv, exit-Inv,
}

abbrev Quiet : Pc → Type 0
Quiet pc = (a : ℕ) → holds a pc + (runs a pc + registers a pc) ≡ 0

-- What a thread leaves, wherever it is.
module _ (limit : ℕ) (s : System) (before behind : List Pc) (v : Inv limit s) where
  abbrev At : Pc → Type 0
  At pc = s.threads ≡ before ++ pc ∷ behind

  fetched-Inv :
      (queue : List ℕ)
      → At fetching
      → s.pool.queue ≡ queue
      → Inv limit (after_advance s before fetching behind (fetch s.pool queue))
  unfolding fetch
  fetched-Inv [] e q = move-Inv limit s before fetching behind e v waiting (λ a. refl) (λ a. refl)
  fetched-Inv (a ∷ queue) e q = fetch-Inv limit s before fetching behind e v a queue q (λ b. refl)

  branch-Inv :
      (pc : Pc) (b : Bool) (first second : Pc)
      → Quiet pc
      → Quiet first
      → Quiet second
      → At pc
      → Inv limit (record s { threads = before ++ (if b then first else second) ∷ behind })
  branch-Inv pc b first second q h k e =
      move-Inv limit s before pc behind e v (if b then first else second) q
        (if_cases Quiet b first second (λ _. h) (λ _. k))

  advance-Inv :
      (timed_out : Bool) (pc : Pc)
      → At pc
      → Inv limit (after_advance s before pc behind (advance timed_out s.pool pc))
  unfolding advance
  advance-Inv timed_out outer e =
      branch-Inv outer (s.pool.threads_max == 0) exiting inner_max (λ a. refl) (λ a. refl)
        (λ a. refl) e
  advance-Inv timed_out inner_max e =
      branch-Inv inner_max (s.pool.threads_max == 0) waiting inner_queue (λ a. refl) (λ a. refl)
        (λ a. refl) e
  advance-Inv timed_out inner_queue e =
      branch-Inv inner_queue (is_empty s.pool.queue) waiting fetching (λ a. refl) (λ a. refl)
        (λ a. refl) e
  advance-Inv timed_out fetching e = fetched-Inv s.pool.queue e refl
  advance-Inv timed_out (inserting a) e = insert-Inv limit s before (inserting a) behind e v a refl
  advance-Inv timed_out (starting a) e = start-Inv limit s before (starting a) behind e v a refl
  advance-Inv timed_out (running a) e = finish-Inv limit s before (running a) behind e v a refl
  advance-Inv timed_out waiting e =
      branch-Inv waiting (s.pool.threads_max == 0 || not (is_empty s.pool.queue)) outer
        (if timed_out then exiting else waiting) (λ a. refl) (λ a. refl)
        (if_cases Quiet timed_out exiting waiting (λ _ a. refl) (λ _ a. refl)) e
  advance-Inv timed_out exiting e =
      move-Inv limit s before exiting behind e v exiting (λ a. refl) (λ a. refl)

Step-Inv : (limit : ℕ) {s t : System} → Step s t → Inv limit s → Inv limit t
Step-Inv limit {s} (pushes t free e) v = rw e (push_task-Inv limit s v)
Step-Inv limit {s} (offers t some_creator e) v = rw e (offer_thread-Inv limit s v)
Step-Inv limit {s} (cancels a t free e) v = rw e (cancel_task-Inv limit a s v)
Step-Inv limit {s} (shuts_down t free e) v = rw e (shut_down-Inv limit s v)
Step-Inv limit {s} (advances timed_out before pc behind t h free e) v =
    rw e (advance-Inv limit s before behind v timed_out pc h)
Step-Inv limit {s} (exits before behind t h e) v =
    rw e (exit-Inv limit s before exiting behind h v refl)

-- In every interleaving of the calls and the threads of a pool, each task that was created is in
-- exactly one place: it is queued, or one thread has it and will call its `run`, or its `run` was
-- called, once, or it was canceled, and then `run` is never called. `threadsProcessing` has exactly
-- the tasks that threads have between its insert and its erase, `threadsAvailable` is the number of
-- threads that have not ended, and at most the limit.
pub Later-Inv : (limit : ℕ) {s : System} → Later (init limit) s → Inv limit s
Later-Inv limit (here t e) = rw e (init-Inv limit)
Later-Inv limit (next_step t u l st) = Step-Inv limit st (Later-Inv limit l)

-- In every state that a pool reaches, `getTasks` returns no task twice, and none that has been
-- canceled.
get_tasks-unshared :
    (limit : ℕ) {s : System} (a : ℕ)
    → Later (init limit) s
    → count a (get_tasks s) + count a s.canceled ≤ 1
unfolding get_tasks
get_tasks-unshared limit {s} a l =
    let v = Later-Inv limit l in
    ground (
      arith,
      v.placed a,
      v.called a,
      v.registered a,
      sum-registers a s.threads,
      count-append a s.pool.queue s.pool.threads_processing,
    )
