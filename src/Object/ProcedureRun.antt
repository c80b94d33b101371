-- ===== src/Object/ProcedureRun.antt =====
-- `ProcessingContext::procedureRun` of
-- features/common4esl/src/common4esl/object/ProcessingContext.cpp, for a context that has been
-- initialised. An exception is a number. The entries, the exception handler and the rest of the
-- object context that they run on are arguments.
pub mod Order
mod Tests
use open_esl.Prelude.{
  ◌&&◌, ℕ, refl, Bool, true, false, Option, none, some, List, [], ◌∷◌, if◌then◌else◌,
}
use open_esl.Database.Number.{ℤ}
use open_esl.Object.ProcessingContext.{Entry}

-- The object with the id "exception" in the object context: there is none, it has another type, or
-- it is a `Value<std::exception_ptr>`, whose pointer is null or not.
pub data ExceptionObject : Type 0 where
  absent other_type : ExceptionObject
  value : Option ℕ → ExceptionObject

-- The object context: that object, the integer under "return-code", if there is one, and the rest.
pub record ObjectContext (S : Type 0) : Type 0 where
  pub exception : ExceptionObject
  pub return_code : Option ℤ
  pub rest : S

-- What the handler of exceptions does first: the exception is stored only if there is no object.
unfoldable pub store_exception : ℕ → ExceptionObject → ExceptionObject
store_exception e absent = value (some e)
store_exception e other_type = other_type
store_exception e (value p) = value p

-- `**exceptionObjectPtr`, read of the object with the id "exception".
unfoldable pub is_pending : ExceptionObject → Bool
is_pending absent = false
is_pending other_type = false
is_pending (value none) = false
is_pending (value (some e)) = true

-- `exceptionObjectPtr`, which is taken before the handler runs: whether it is not null.
unfoldable pub has_pointer : ExceptionObject → Bool
has_pointer absent = false
has_pointer other_type = false
has_pointer (value p) = true

-- What the `catch` block does after the handler, where `taken` is the object "exception" from before
-- it: an exception of the handler leaves the run, a pending exception behind the pointer breaks the
-- loop, and otherwise the run goes on with `rest`. An object context has no operation that replaces
-- or removes an object, so the pointer leads to the object "exception" after the handler too.
unfoldable pub after_handler :
    {S : Type 0}
    → ExceptionObject
    → ObjectContext S × Option ℕ
    → ObjectContext S × Option ℕ
    → ObjectContext S × Option ℕ
unfolding is_pending has_pointer
after_handler taken (z, some f) rest = (z, some f)
after_handler taken (z, none) rest =
    if has_pointer taken && is_pending z.exception then (z, none) else rest

module _ {S : Type 0} (run : Entry → ObjectContext S → ObjectContext S × Option ℕ) where
  -- The loop over the entries: the object context after it, and an exception that leaves it.
  unfoldable pub run_entries :
      Option (ObjectContext S → ObjectContext S × Option ℕ)
      → List Entry
      → ObjectContext S
      → ObjectContext S × Option ℕ
  unfolding store_exception after_handler
  run_entries handler [] x = (x, none)
  run_entries none (entry ∷ entries) x =
      let (y, thrown) = run entry x in
      let rest = run_entries none entries y in elim thrown [ none ↦ rest | some e ↦ (y, some e) ]
  run_entries (some handler) (entry ∷ entries) x =
      let (y, thrown) = run entry x in
      let rest = run_entries (some handler) entries y in
      let stored : ℕ → ObjectContext S =
        λ e. record y { exception = store_exception e y.exception } in
      let handled : ℕ → ObjectContext S × Option ℕ = λ e. handler (stored e) in
      let resumed : ℕ → ObjectContext S × Option ℕ =
        λ e. run_entries (some handler) entries (handled e).0 in
      elim thrown [
        | none ↦ rest
        | some e ↦ after_handler (stored e).exception (handled e) (resumed e)
      ]

  -- `procedureRun`, with the return code that the context had before: the object context, the return
  -- code, and an exception that leaves it.
  unfoldable pub procedure_run :
      Option (ObjectContext S → ObjectContext S × Option ℕ)
      → List Entry
      → ℤ
      → ObjectContext S
      → ObjectContext S × ℤ × Option ℕ
  unfolding run_entries
  procedure_run handler entries return_code x =
      let (y, thrown) = run_entries handler entries x in
      let found : ℤ = elim y.return_code [ none ↦ return_code | some code ↦ code ] in
      elim thrown [ some e ↦ (y, return_code, some e) | none ↦ (y, found, none) ]
