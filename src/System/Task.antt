-- ===== src/System/Task.antt =====
-- `TaskBinding` of features/common4esl/src/common4esl/system/TaskBinding.cpp, whose status the
-- threads of a task factory and the holders of an `esl::system::Task` share. An exception is a
-- number. The callback `onStateChanged` is what it throws for a status; `none` is that it returns.
pub mod Run
mod Tests
use open_esl.Prelude.{
  ℕ, ◌+◌, refl, Bool, true, false, not, Option, none, some, List, [], ◌∷◌, ◌++◌, if◌then◌else◌,
}

-- `Task::Status`
pub data Status : Type 0 where
  waiting canceled running exception done : Status

unfoldable pub status_eq : Status → Status → Bool
status_eq waiting waiting = true
status_eq canceled canceled = true
status_eq running running = true
status_eq exception exception = true
status_eq done done = true
status_eq _ _ = false

-- `attached` is that `taskFactory` is not null. `notified` is what the callback was called with.
pub record Binding : Type 0 where
  pub status : Status
  pub attached : Bool
  pub has_context : Bool
  pub exception_ptr : Option ℕ
  pub notified : List Status

unfoldable pub new_binding : Bool → Binding
new_binding has_context = record {
  status = waiting;
  attached = true;
  has_context = has_context;
  exception_ptr = none;
  notified = [];
}

-- How a call ends: it returns, it throws, or it waits for a mutex that its own thread holds.
pub data Ending : Type 0 where
  returns : Ending
  throws : ℕ → Ending
  blocks : Ending

-- How a call of the callback ends.
unfoldable pub ending : Option ℕ → Ending
ending none = returns
ending (some e) = throws e

module _ (on_state_changed : Status → Option ℕ) where
  -- `onStateChanged(aStatus)`
  unfoldable pub notify : Status → Binding → Binding × Ending
  unfolding ending
  notify s b = (record b { notified = b.notified ++ s ∷ [] }, ending (on_state_changed s))

  -- `setStatus`, called by a thread that holds `taskFactoryMutex` or does not.
  unfoldable pub set_status : Bool → Status → Binding → Binding × Ending
  unfolding status_eq notify
  set_status holds_mutex s b =
      let changed = record b { status = s } in
      if status_eq b.status s
      then (b, returns)
      else if status_eq s canceled
      then if holds_mutex then (changed, blocks) else notify s (record changed { attached = false })
      else notify s changed

  -- The `catch` block of `run`; what its own call of `setStatus` throws is dropped.
  unfoldable pub catch_exception : ℕ → Binding → Binding
  unfolding set_status
  catch_exception e b = (set_status false exception (record b { exception_ptr = some e })).0

  -- The end of the `try` block, by how `setStatus(done)` ends.
  unfoldable pub after_done : Binding × Ending → Binding
  unfolding catch_exception
  after_done (b, returns) = b
  after_done (b, throws e) = catch_exception e b
  after_done (b, blocks) = b

  -- The `try` block from `procedureRun` on, which ends with `thrown`.
  unfoldable pub run_procedure : Option ℕ → Binding → Binding
  unfolding after_done catch_exception set_status
  run_procedure (some e) b = catch_exception e b
  run_procedure none b = after_done (set_status false done b)

  -- The `try` block from the end of `setStatus(running)` on.
  unfoldable pub after_running : Option ℕ → Binding × Ending → Binding
  unfolding run_procedure catch_exception
  after_running thrown (b, returns) = run_procedure thrown (record b { has_context = true })
  after_running thrown (b, throws e) = catch_exception e b
  after_running thrown (b, blocks) = b

  -- `run`: a procedure that ends with `thrown`, `none` for one that returns, or no procedure.
  unfoldable pub run : Option ℕ → Binding → Binding
  unfolding after_running set_status
  run thrown b = record (after_running thrown (set_status false running b)) { attached = false }

  -- `cancel` of a binding that is in the queue of its factory, or is not. A procedure that runs is
  -- told by `procedureCancel`, which changes nothing here.
  unfoldable pub cancel : Bool → Binding → Binding × Ending
  unfolding set_status
  cancel queued b =
      if not b.attached
      then (b, returns)
      else if queued
      then set_status true canceled b
      else (b, returns)

-- `getContext`: whether it is not null.
unfoldable pub get_context : Binding → Bool
get_context b = elim b.status [
  | canceled ↦ b.has_context
  | exception ↦ b.has_context
  | done ↦ b.has_context
  | _ ↦ false
]
