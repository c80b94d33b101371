-- ===== src/System/Task/Run.antt =====
-- What `TaskBinding::run` leaves, and what `cancel` does to a task that is queued.
use open_esl.Prelude.{
  ℕ, ◌≡◌, refl, sym, ap, subst, ◌∙◌, ◌⊎◌, inl, inr, true, false, not, Option, none, some, [], ◌∷◌,
  ◌++◌, append_assoc, if_false,
}
use open_esl.System.Task.{
  Status, waiting, canceled, running, exception, done, status_eq, Binding, Ending, blocks, ending,
  after_done, after_running, notify, set_status, catch_exception, run_procedure, run, cancel,
}

module _ (on_state_changed : Status → Option ℕ) where
  -- The task has ended well: nothing threw, and the callback saw both changes.
  pub record Succeeded (thrown : Option ℕ) (b r : Binding) : Type 0 where
    pub silent :
        (thrown ≡ none) × (on_state_changed running ≡ none) × (on_state_changed done ≡ none)
    pub status : r.status ≡ done
    pub same_exception : r.exception_ptr ≡ b.exception_ptr
    pub notified : r.notified ≡ b.notified ++ running ∷ done ∷ []

  -- The task has ended by the exception `e` of the procedure or of the callback.
  pub record Failed (thrown : Option ℕ) (b r : Binding) (e : ℕ) : Type 0 where
    pub source :
        (on_state_changed running ≡ some e) ⊎ ((thrown ≡ some e) ⊎ (on_state_changed done ≡ some e))
    pub status : r.status ≡ exception
    pub stored : r.exception_ptr ≡ some e

  set_status_lem :
      (s : Status) (b : Binding)
      → status_eq b.status s ≡ false
      → status_eq s canceled ≡ false
      → set_status on_state_changed false s b
        ≡ (record b { status = s; notified = b.notified ++ s ∷ [] }, ending (on_state_changed s))
  unfolding set_status notify
  set_status_lem s b h k =
      if_false (status_eq b.status s) _ _ h ∙ if_false (status_eq s canceled) _ _ k

  abbrev Source : Option ℕ → ℕ → Type 0
  Source thrown e =
      (on_state_changed running ≡ some e) ⊎ ((thrown ≡ some e) ⊎ (on_state_changed done ≡ some e))

  catch_exception_lem :
      (e : ℕ) (c : Binding)
      → status_eq c.status exception ≡ false
      → catch_exception on_state_changed e c ≡ record c {
        exception_ptr = some e;
        status = exception;
        notified = c.notified ++ exception ∷ [];
      }
  unfolding catch_exception
  catch_exception_lem e c h =
      ap (λ (p : Binding × Ending). p.0)
        (set_status_lem exception (record c { exception_ptr = some e }) h refl)

  catch_exception-Failed :
      (thrown : Option ℕ) (b c : Binding) (e : ℕ)
      → Source thrown e
      → status_eq c.status exception ≡ false
      → Failed thrown b (record (catch_exception on_state_changed e c) { attached = false }) e
  catch_exception-Failed thrown b c e source h =
      subst (λ (d : Binding). Failed thrown b (record d { attached = false }) e)
        (sym (catch_exception_lem e c h)) (record { source = source; status = refl; stored = refl })

  abbrev Ended : Option ℕ → Binding → Binding → Type 0
  Ended thrown b r = Succeeded thrown b r ⊎ ((e : ℕ) × Failed thrown b r e)

  -- Once the status is `running`, and the callback has returned.
  module _ (b c : Binding) (started : c.status ≡ running) (same : c.exception_ptr ≡ b.exception_ptr)
      (told : c.notified ≡ b.notified ++ running ∷ [])
      (calm : on_state_changed running ≡ none) where
    after_done-Ended :
        (r : Option ℕ)
        → on_state_changed done ≡ r
        → Ended none b
            (record (after_done on_state_changed
              (record c { status = done; notified = c.notified ++ done ∷ [] }, ending r)) {
                attached = false;
              })
    unfolding after_done ending
    after_done-Ended none h = inl (record {
      silent = (refl, calm, h);
      status = refl;
      same_exception = same;
      notified =
          ap (λ xs. xs ++ done ∷ []) told ∙ append_assoc b.notified (running ∷ []) (done ∷ []);
    })
    after_done-Ended (some e) h = inr (
      e,
      catch_exception-Failed none b (record c { status = done; notified = c.notified ++ done ∷ [] })
          e (inr (inr h)) refl,
    )

    run_procedure-Ended :
        (thrown : Option ℕ)
        → Ended thrown b (record (run_procedure on_state_changed thrown c) { attached = false })
    unfolding run_procedure
    run_procedure-Ended (some e) = inr (
      e,
      catch_exception-Failed (some e) b c e (inr (inl refl))
          (ap (λ s. status_eq s exception) started),
    )
    run_procedure-Ended none =
        subst
          (λ (p : Binding × Ending).
            Ended none b (record (after_done on_state_changed p) { attached = false }))
          (sym (set_status_lem done c (ap (λ s. status_eq s done) started) refl))
          (after_done-Ended (on_state_changed done) refl)

  after_running-Ended :
      (thrown : Option ℕ) (b : Binding) (r : Option ℕ)
      → on_state_changed running ≡ r
      → Ended thrown b
          (record (after_running on_state_changed thrown
            (record b { status = running; notified = b.notified ++ running ∷ [] }, ending r)) {
              attached = false;
            })
  unfolding after_running ending
  after_running-Ended thrown b none h =
      run_procedure-Ended b
        (record b { status = running; notified = b.notified ++ running ∷ []; has_context = true })
        refl refl refl h thrown
  after_running-Ended thrown b (some e) h = inr (
    e,
    catch_exception-Failed thrown b
        (record b { status = running; notified = b.notified ++ running ∷ [] }) e (inl h) refl,
  )

  -- Running a task that is waiting leaves the task detached from its factory: it is done if neither
  -- the procedure nor the callback threw, and otherwise its status is `exception`, with an exception
  -- stored that one of them threw.
  pub run-Succeeded :
      (thrown : Option ℕ) (b : Binding)
      → b.status ≡ waiting
      → ((run on_state_changed thrown b).attached ≡ false)
        × (Succeeded thrown b (run on_state_changed thrown b)
            ⊎ ((e : ℕ) × Failed thrown b (run on_state_changed thrown b) e))
  unfolding run
  run-Succeeded thrown b h = (
    refl,
    subst
        (λ (p : Binding × Ending).
          Ended thrown b (record (after_running on_state_changed thrown p) { attached = false }))
        (sym (set_status_lem running b (ap (λ s. status_eq s running) h) refl))
        (after_running-Ended thrown b (on_state_changed running) refl),
  )

  -- Cancelling a task that waits in the queue of its factory never returns: `cancel` holds
  -- `taskFactoryMutex` when `setStatus` locks it once more. The status is `canceled` by then, the
  -- callback has not been called, and the task is still attached.
  cancel-queued_blocks :
      (b : Binding)
      → b.attached ≡ true
      → b.status ≡ waiting
      → cancel on_state_changed true b ≡ (record b { status = canceled }, blocks)
  unfolding cancel set_status
  cancel-queued_blocks b h k =
      if_false (not b.attached) _ _ (ap not h)
      ∙ if_false (status_eq b.status canceled) _ _ (ap (λ s. status_eq s canceled) k)
