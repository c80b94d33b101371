-- ===== src/System/TaskPool/Tests.antt =====
-- The pool with one thread.
use open_esl.Prelude.{◌≡◌, refl, inl, inr, Bool, true, false, [], ◌∷◌, ◌++◌, arith}
use open_esl.System.TaskPool.{
  Pc, outer, inner_max, inner_queue, fetching, waiting, inserting, starting, running, advance,
  System, init, push_task, create_thread, offer_thread, cancel_task, after_advance, pushes, offers,
  advances, Later, here, next_step, mem, erase_first, fetch, locks_queue,
}
use open_esl.System.TaskPool.Places.{Inv}
use open_esl.System.TaskPool.Invariant.{Later-Inv}
use open_esl.System.TaskPool.Starving.{Stranded, cancel_task-starves, create_task-Stranded}

-- One task is created, with a thread.
abbrev created : System
created = offer_thread (push_task (init 1))

created-Later : Later (init 1) created
unfolding push_task init
created-Later =
    next_step (push_task (init 1)) created
      (next_step (init 1) (push_task (init 1)) (here (init 1) refl)
        (pushes (push_task (init 1)) refl refl))
      (offers created (omega arith) refl)

-- The only thread goes on.
abbrev move : Bool → Pc → System → System
move timed_out pc s = after_advance s [] pc [] (advance timed_out s.pool pc)

move-Later :
    (timed_out : Bool) (pc : Pc) (s : System)
    → s.threads ≡ pc ∷ []
    → s.stuck ≡ false
    → Later (init 1) s
    → Later (init 1) (move timed_out pc s)
move-Later timed_out pc s h free l =
    next_step s (move timed_out pc s) l
      (advances timed_out [] pc [] (move timed_out pc s) h (inl free) refl)

-- The thread has the task.
abbrev taken : System
taken =
    move false fetching (move false inner_queue (move false inner_max (move false outer created)))

taken-Later : Later (init 1) taken
unfolding offer_thread push_task init create_thread advance fetch
taken-Later = move-Later false fetching _ refl refl (
    move-Later false inner_queue _ refl refl
      (move-Later false inner_max _ refl refl (move-Later false outer _ refl refl created-Later)))

-- The task is done, and the thread has timed out.
abbrev timed_out : System
timed_out = move true waiting (
    move false inner_queue (
      move false inner_max
        (move false (running 0) (move false (starting 0) (move false (inserting 0) taken)))))

timed_out-Later : Later (init 1) timed_out
unfolding offer_thread push_task init create_thread advance fetch
timed_out-Later = move-Later true waiting _ refl refl (
    move-Later false inner_queue _ refl refl (
      move-Later false inner_max _ refl refl (
        move-Later false (running 0) _ refl refl (
          move-Later false (starting 0) _ refl refl
            (move-Later false (inserting 0) _ refl refl taken-Later)))))

Later-Inv_example : Inv 1 timed_out
Later-Inv_example = Later-Inv 1 timed_out-Later

-- The task is canceled, and the thread goes on to its first test.
abbrev canceled : System
canceled = move false outer (cancel_task 0 created)

canceled-Later : Later (cancel_task 0 created) canceled
unfolding offer_thread push_task init create_thread cancel_task mem locks_queue
canceled-Later =
    next_step (cancel_task 0 created) canceled (here (cancel_task 0 created) refl)
      (advances false [] outer [] canceled refl (inr refl) refl)

cancel_task-starves_example : canceled.pool.queue ≡ erase_first 0 created.pool.queue
cancel_task-starves_example =
    cancel_task-starves 0 created (unfold offer_thread push_task init create_thread mem in refl)
      canceled-Later

create_task-Stranded_example :
    (t : System) × Stranded 1 (timed_out.pool.queue ++ timed_out.next ∷ []) timed_out t
create_task-Stranded_example =
    create_task-Stranded 1 1 timed_out timed_out-Later
      (unfold offer_thread push_task init create_thread advance fetch in refl)
      (unfold offer_thread push_task init create_thread advance fetch in refl)
      (unfold offer_thread push_task init create_thread advance fetch in refl)
      (unfold offer_thread push_task init create_thread advance fetch in refl)
