-- ===== src/Object/ProcedureRun/Tests.antt =====
-- Runs of a context, and the theorems at concrete inputs.
use open_esl.Prelude.{ℕ, ◌≡◌, refl, ap, Option, none, some, List, [], ◌∷◌, ◌++◌}
use open_esl.Database.Number.{pos}
use open_esl.Object.ProcessingContext.{Entry, owning, referring}
use open_esl.Object.ProcedureRun.{
  ExceptionObject, absent, other_type, value, ObjectContext, run_entries, procedure_run,
}
use open_esl.Object.ProcedureRun.Order.{AllRan, run_entries-AllRan}

-- An entry that owns its object throws the object's number.
abbrev run : Entry → ObjectContext (List Entry) → ObjectContext (List Entry) × Option ℕ
run (owning n) x = (record x { rest = x.rest ++ owning n ∷ [] }, some n)
run (referring n) x = (record x { rest = x.rest ++ referring n ∷ [] }, none)

abbrev clear : ExceptionObject → ExceptionObject
clear absent = absent
clear other_type = other_type
clear (value p) = value none

-- A handler that deals with every exception.
abbrev handler : ObjectContext (List Entry) → ObjectContext (List Entry) × Option ℕ
handler x = (record x { exception = clear x.exception }, none)

abbrev entries : List Entry
entries = owning 1 ∷ referring 2 ∷ owning 3 ∷ []

abbrev before_run : ObjectContext (List Entry)
before_run = record { exception = value none; return_code = some (pos 7); rest = [] }

runs :
    (entry : Entry) (x : ObjectContext (List Entry)) → (run entry x).0.rest ≡ x.rest ++ entry ∷ []
runs (owning n) x = refl
runs (referring n) x = refl

leaves : (entry : Entry) (x : ObjectContext (List Entry)) → (run entry x).0.exception ≡ x.exception
leaves (owning n) x = refl
leaves (referring n) x = refl

-- The third exception is not stored, and the return code is read.
procedure_runs :
    procedure_run run (some handler) entries (pos 0) before_run
    ≡ (record before_run { rest = entries }, pos 7, none)
unfolding procedure_run
procedure_runs = refl

run_entries-AllRan_example :
    AllRan (λ s. s) entries before_run (run_entries run (some handler) entries before_run)
run_entries-AllRan_example =
    run_entries-AllRan run handler (λ s. s) runs (λ x. refl) leaves (λ x h. (ap clear h, refl))
      entries before_run refl
