-- ===== src/System/TaskPool/Starving.antt =====
-- When tasks stay in the queue although the limit allows threads.
use open_esl.Prelude.{
  ℕ, zero, suc, ◌-◌, ◌≡◌, refl, sym, ap, subst, ◌∙◌, inl, inr, Bool, true, false, List, [], ◌∷◌,
  ◌++◌, arith, ltb, if_cases, if_true, if_false, length, replicate,
}
use open_esl.System.TaskPool.Invariant.{Later-Inv}
use open_esl.System.TaskPool.{
  Pool, Pc, outer, inner_max, inner_queue, fetching, waiting, exiting, inserting, starting, running,
  advance, locks_queue, System, init, push_task, create_thread, offer_thread, cancel_task,
  after_exit, Step, pushes, offers, cancels, shuts_down, advances, exits, Later, here, next_step,
  mem, erase_first,
}

advance-queue :
    (timed_out : Bool) (p : Pool) (pc : Pc)
    → locks_queue pc ≡ false
    → (advance timed_out p pc).0.queue ≡ p.queue
unfolding advance locks_queue
advance-queue timed_out p outer h = refl
advance-queue timed_out p inner_max h = refl
advance-queue timed_out p inner_queue h = absurd (ground arith)
advance-queue timed_out p fetching h = absurd (ground arith)
advance-queue timed_out p (inserting a) h = refl
advance-queue timed_out p (starting a) h = refl
advance-queue timed_out p (running a) h = refl
advance-queue timed_out p waiting h = refl
advance-queue timed_out p exiting h = refl

abbrev Same : System → System → Type 0
Same s t = (t.stuck ≡ true) × (t.pool.queue ≡ s.pool.queue)

Step-Same : {s t : System} → Step s t → s.stuck ≡ true → Same s t
Step-Same (pushes t free e) h = absurd (ground arith)
Step-Same {s} (offers t some_creator e) h = rw e (
    unfold offer_thread create_thread in
    if_cases (Same s) (ltb s.pool.threads_available s.pool.threads_max) _ _ (λ _. (h, refl))
      (λ _. (h, refl)))
Step-Same (cancels a t free e) h = absurd (ground arith)
Step-Same (shuts_down t free e) h = absurd (ground arith)
Step-Same (advances timed_out before pc behind t at (inl free) e) h = absurd (ground arith)
Step-Same {s} (advances timed_out before pc behind t at (inr quiet) e) h =
    rw e (h, advance-queue timed_out s.pool pc quiet)
Step-Same (exits before behind t at e) h = rw e (h, refl)

Later-Same : {s t : System} → Later s t → s.stuck ≡ true → Same s t
Later-Same (here t e) h = rw e (h, refl)
Later-Same (next_step t u l st) h =
    let before = Later-Same l h in let step = Step-Same st before.0 in (step.0, step.1 ∙ before.1)

-- Once a task that is in the queue is canceled, the queue never changes again, whatever calls and
-- threads do: the tasks behind it in the queue and before it stay there, and none is ever added.
pub cancel_task-starves :
    (a : ℕ) (s : System) {t : System}
    → mem a s.pool.queue ≡ true
    → Later (cancel_task a s) t
    → t.pool.queue ≡ erase_first a s.pool.queue
unfolding cancel_task
cancel_task-starves a s {t} h l =
    let canceled = if_true (mem a s.pool.queue) _ _ h in
    (Later-Same l (ap (λ (u : System). u.stuck) canceled)).1
    ∙ ap (λ (u : System). u.pool.queue) canceled

Later-append : {s t u : System} → Later s t → Later t u → Later s u
Later-append {s} l (here u e) = subst (Later s) (sym e) l
Later-append l (next_step t u m st) = next_step t u (Later-append l m) st

-- Every thread has ended, no call of `createTask` is left that could create one, and the tasks
-- `queue` are queued.
pub record Stranded (limit : ℕ) (queue : List ℕ) (s t : System) : Type 0 where
  pub later : Later s t
  pub no_threads : t.threads ≡ []
  pub no_creators : t.creators ≡ 0
  pub same_limit : t.pool.threads_max ≡ limit
  pub queued : t.pool.queue ≡ queue

-- Threads that are about to end do end, one after the other.
all_exit :
    (limit n : ℕ) (queue : List ℕ) (s : System)
    → s.threads ≡ replicate n exiting
    → s.creators ≡ 0
    → s.pool.threads_max ≡ limit
    → s.pool.queue ≡ queue
    → (t : System) × Stranded limit queue s t
all_exit limit zero queue s h c m q =
    (s, record { later = here s refl; no_threads = h; no_creators = c; same_limit = m; queued = q })
all_exit limit (suc n) queue s h c m q =
    let first = after_exit s [] (replicate n exiting) in
    let rest = all_exit limit n queue first refl c m q in
    (
      rest.0,
      record {
        later =
            Later-append
              (next_step s first (here s refl) (exits [] (replicate n exiting) first h refl))
              rest.1.later;
        no_threads = rest.1.no_threads;
        no_creators = rest.1.no_creators;
        same_limit = rest.1.same_limit;
        queued = rest.1.queued;
      },
    )

length-replicate : (n : ℕ) → length (replicate n exiting) ≡ n
length-replicate zero = refl
length-replicate (suc n) = ap suc (length-replicate n)

-- A task that is created while each of the threads that the limit allows has timed out, but has not
-- counted itself out yet, can end up in the queue with no thread left and none that will be
-- created: `createTask` sees the limit reached, and the threads end without testing the queue again.
pub create_task-Stranded :
    (limit n : ℕ) (s : System)
    → Later (init limit) s
    → s.threads ≡ replicate n exiting
    → s.creators ≡ 0
    → s.stuck ≡ false
    → s.pool.threads_max ≡ n
    → (t : System) × Stranded n (s.pool.queue ++ s.next ∷ []) s t
unfolding push_task offer_thread
create_task-Stranded limit n s l h c free m =
    let full : ltb s.pool.threads_available s.pool.threads_max ≡ false =
      ground (arith, (Later-Inv limit l).counted, ap length h, length-replicate n) in
    let pushed = push_task s in
    let offered = record pushed { creators = pushed.creators - 1 } in
    let rest = all_exit n n (s.pool.queue ++ s.next ∷ []) offered h (omega (arith, c)) m refl in
    (
      rest.0,
      record {
        later =
            Later-append
              (next_step pushed offered (next_step s pushed (here s refl) (pushes pushed free refl))
                (offers offered (omega arith)
                  (sym (if_false (ltb s.pool.threads_available s.pool.threads_max) _ _ full))))
              rest.1.later;
        no_threads = rest.1.no_threads;
        no_creators = rest.1.no_creators;
        same_limit = rest.1.same_limit;
        queued = rest.1.queued;
      },
    )
