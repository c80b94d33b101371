-- ===== src/System/Task/Tests.antt =====
-- The tasks on concrete inputs.
use open_esl.Prelude.{ℕ, ◌≡◌, refl, ◌⊎◌, true, false, Option, none, some}
use open_esl.System.Task.{
  Status, canceled, done, new_binding, blocks, run, cancel, set_status, status_eq,
}
use open_esl.System.Task.Run.{Succeeded, Failed, run-Succeeded}

-- A callback that throws 7 when a task is done.
abbrev throws_at_end : Status → Option ℕ
throws_at_end done = some 7
throws_at_end _ = none

run-Succeeded_example :
    ((run throws_at_end none (new_binding true)).attached ≡ false)
    × (Succeeded throws_at_end none (new_binding true) (run throws_at_end none (new_binding true))
        ⊎ ((e : ℕ) × Failed throws_at_end none
              (new_binding true)
              (run throws_at_end none (new_binding true))
              e))
run-Succeeded_example =
    run-Succeeded throws_at_end none (new_binding true) (unfold new_binding in refl)

-- Cancelling a task that is queued never returns.
cancel_blocks :
    cancel throws_at_end true (new_binding false)
    ≡ (record (new_binding false) { status = canceled }, blocks)
unfolding cancel set_status new_binding status_eq
cancel_blocks = refl
