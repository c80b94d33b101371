-- ===== src/Object/ProcedureRun/Order.antt =====
-- Which entries a run starts, and what becomes of their exceptions.
use open_esl.Prelude.{
  ◌&&◌, Bool, false, if_false, subst, ℕ, suc, ◌≤◌, ◌≡◌, refl, sym, ap, ◌∙◌, ◌⊎◌, inl, inr, true,
  Option, none, some, List, [], ◌∷◌, ◌++◌, append-nil, append_assoc, arith, if_cases, length, take,
}
use open_esl.Object.ProcessingContext.{Entry}
use open_esl.Object.ProcedureRun.{
  ExceptionObject, has_pointer, value, after_handler, ObjectContext, store_exception, is_pending,
  run_entries,
}

-- The entries that a run has started, of which it stops short only for an exception.
pub record Started {S : Type 0} (started : S → List Entry) (entries : List Entry)
    (x : ObjectContext S) (r : ObjectContext S × Option ℕ) : Type 0 where
  pub amount : ℕ
  pub within : amount ≤ length entries
  pub in_order : started r.0.rest ≡ started x.rest ++ take amount entries
  pub complete :
      (amount ≡ length entries) ⊎ (((e : ℕ) × (r.1 ≡ some e)) ⊎ (is_pending r.0.exception ≡ true))

Started-cons :
    {S : Type 0} (started : S → List Entry) (entry : Entry) (entries : List Entry)
    (x y : ObjectContext S) (r : ObjectContext S × Option ℕ)
    → started y.rest ≡ started x.rest ++ entry ∷ []
    → Started started entries y r
    → Started started (entry ∷ entries) x r
Started-cons started entry entries x y r h s = record {
  amount = suc s.amount;
  within = omega (arith, s.within);
  in_order =
      s.in_order
      ∙ ap (λ es. es ++ take s.amount entries) h
      ∙ append_assoc (started x.rest) (entry ∷ []) (take s.amount entries);
  complete = elim s.complete [ inl e ↦ inl (omega arith) | inr e ↦ inr e ];
}

Started-stop :
    {S : Type 0} (started : S → List Entry) (entry : Entry) (entries : List Entry)
    (x : ObjectContext S) (r : ObjectContext S × Option ℕ)
    → started r.0.rest ≡ started x.rest ++ entry ∷ []
    → ((e : ℕ) × (r.1 ≡ some e)) ⊎ (is_pending r.0.exception ≡ true)
    → Started started (entry ∷ entries) x r
Started-stop started entry entries x r h stops = record {
  amount = 1;
  within = omega arith;
  in_order = h;
  complete = inr stops;
}

after_handler-Started :
    {S : Type 0} (started : S → List Entry) (entry : Entry) (entries : List Entry)
    (x : ObjectContext S) (taken : ExceptionObject) (z rest : ObjectContext S × Option ℕ)
    → started z.0.rest ≡ started x.rest ++ entry ∷ []
    → Started started entries z.0 rest
    → Started started (entry ∷ entries) x (after_handler taken z rest)
unfolding after_handler
after_handler-Started started entry entries x taken (z, some f) rest h s =
    Started-stop started entry entries x (z, some f) h (inl (f, refl))
after_handler-Started started entry entries x taken (z, none) rest h s =
    if_cases (Started started (entry ∷ entries) x) (has_pointer taken && is_pending z.exception)
      (z, none) rest
      (λ pending. Started-stop started entry entries x (z, none) h (inr (ground (arith, pending))))
      (λ quiet. Started-cons started entry entries x z rest h s)

module _ {S : Type 0} (run : Entry → ObjectContext S → ObjectContext S × Option ℕ)
    (handler : ObjectContext S → ObjectContext S × Option ℕ) (started : S → List Entry)
    (runs : (entry : Entry) (x : ObjectContext S)
      → started (run entry x).0.rest ≡ started x.rest ++ entry ∷ [])
    (handles : (x : ObjectContext S) → started (handler x).0.rest ≡ started x.rest) where
  -- With an exception handler, a run starts the entries in their order, from the first one on,
  -- each once; it leaves entries out only if an exception leaves the run, or if the object with
  -- the id "exception" holds one. Asked of the entries and the handler is that a record of the
  -- entries started is kept: each entry adds itself, and the handler changes nothing in it.
  run_entries-Started :
      (entries : List Entry) (x : ObjectContext S)
      → Started started entries x (run_entries run (some handler) entries x)
  unfolding run_entries
  run_entries-Started [] x = record {
    amount = 0;
    within = omega arith;
    in_order = sym (append-nil (started x.rest));
    complete = inl (omega arith);
  }
  run_entries-Started (entry ∷ entries) x =
      let y = (run entry x).0 in
      let stored : ℕ → ObjectContext S =
        λ e. record y { exception = store_exception e y.exception } in
      elim (run entry x).1
        as (λ thrown. Started started (entry ∷ entries) x (elim thrown [
          | none ↦ run_entries run (some handler) entries y
          | some e ↦
              after_handler (stored e).exception (handler (stored e))
                (run_entries run (some handler) entries (handler (stored e)).0)
        ])) [
          | none ↦
              Started-cons started entry entries x y _ (runs entry x)
                (run_entries-Started entries y)
          | some e ↦
              after_handler-Started started entry entries x (stored e).exception
                (handler (stored e)) _ (handles (stored e) ∙ runs entry x)
                (run_entries-Started entries (handler (stored e)).0)
        ]

-- Every entry was started, no exception left the run, and the object "exception" holds none.
abbrev pub AllRan :
    {S : Type 0}
    → (S → List Entry)
    → List Entry
    → ObjectContext S
    → ObjectContext S × Option ℕ
    → Type 0
AllRan started entries x r =
    (started r.0.rest ≡ started x.rest ++ entries) × (r.1 ≡ none) × (r.0.exception ≡ value none)

quiet_and : (p q : Bool) → q ≡ false → (p && q) ≡ false
quiet_and true q h = h
quiet_and false q h = refl

after_handler_quiet :
    {S : Type 0} (taken : ExceptionObject) (z rest : ObjectContext S × Option ℕ)
    → z.1 ≡ none
    → z.0.exception ≡ value none
    → after_handler taken z rest ≡ rest
unfolding after_handler is_pending
after_handler_quiet taken (z, some f) rest h k = cc
after_handler_quiet taken (z, none) rest h k =
    if_false (has_pointer taken && is_pending z.exception) (z, none) rest
      (quiet_and (has_pointer taken) (is_pending z.exception) (ap is_pending k))

module _ {S : Type 0} (run : Entry → ObjectContext S → ObjectContext S × Option ℕ)
    (handler : ObjectContext S → ObjectContext S × Option ℕ) (started : S → List Entry)
    (runs : (entry : Entry) (x : ObjectContext S)
      → started (run entry x).0.rest ≡ started x.rest ++ entry ∷ [])
    (handles : (x : ObjectContext S) → started (handler x).0.rest ≡ started x.rest)
    (leaves : (entry : Entry) (x : ObjectContext S) → (run entry x).0.exception ≡ x.exception)
    (accepts : (x : ObjectContext S)
      → x.exception ≡ value none
      → ((handler x).0.exception ≡ value none) × ((handler x).1 ≡ none)) where
  -- Once the object with the id "exception" holds a null pointer, which is how a handler says that
  -- it has dealt with an exception, no later exception is stored: with entries that do not touch
  -- the object, and a handler that leaves a null pointer as it is and throws nothing then, every
  -- entry runs, whichever of them throw, and no exception leaves the run. Each entry adds itself
  -- to a record of the entries started, which the handler keeps.
  pub run_entries-AllRan :
      (entries : List Entry) (x : ObjectContext S)
      → x.exception ≡ value none
      → AllRan started entries x (run_entries run (some handler) entries x)
  unfolding run_entries
  run_entries-AllRan [] x h = (sym (append-nil (started x.rest)), refl, h)
  run_entries-AllRan (entry ∷ entries) x h =
      let y = (run entry x).0 in
      let stored : ℕ → ObjectContext S =
        λ e. record y { exception = store_exception e y.exception } in
      elim (run entry x).1
        as (λ thrown. AllRan started (entry ∷ entries) x (elim thrown [
          | none ↦ run_entries run (some handler) entries y
          | some e ↦
              after_handler (stored e).exception (handler (stored e))
                (run_entries run (some handler) entries (handler (stored e)).0)
        ])) [
          | none ↦
              longer (run_entries run (some handler) entries y) y (runs entry x)
                (run_entries-AllRan entries y (leaves entry x ∙ h))
          | some e ↦
              let null : store_exception e y.exception ≡ value none =
                ap (store_exception e) (leaves entry x ∙ h) in
              let quiet = accepts (stored e) null in
              subst (AllRan started (entry ∷ entries) x)
                (sym
                  (after_handler_quiet (stored e).exception (handler (stored e)) _ quiet.1 quiet.0))
                (longer (run_entries run (some handler) entries (handler (stored e)).0)
                  (handler (stored e)).0 (handles (stored e) ∙ runs entry x)
                  (run_entries-AllRan entries (handler (stored e)).0 quiet.0))
        ]
    where
      longer :
          (r : ObjectContext S × Option ℕ) (y : ObjectContext S)
          → started y.rest ≡ started x.rest ++ entry ∷ []
          → AllRan started entries y r
          → AllRan started (entry ∷ entries) x r
      longer r y k s = (
        s.0 ∙ ap (λ es. es ++ entries) k ∙ append_assoc (started x.rest) (entry ∷ []) entries,
        s.1,
        s.2,
      )
