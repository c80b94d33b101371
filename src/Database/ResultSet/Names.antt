-- ===== src/Database/ResultSet/Names.antt =====
-- Fields by the names of their columns, and what is left at the end.
use open_esl.Prelude.{
  ℕ, suc, ◌≡◌, refl, sym, ap, ap₂, subst, ◌∙◌, false, Option, none, some, List, [], ◌∷◌, ◌++◌,
  if◌then◌else◌, if_cases, if_true, if_false, length, get_elem?, All, Bytes, bytes_eq,
  bytes_eq_refl,
}
use open_esl.Database.ResultSet.{
  Binding, Error, at_end, unknown_field, out_of_range, ResultSet, name_to_index, save, next, add,
  is_refused, set_changed, set_field, field_at, field_named,
}

name_to_index-none :
    (name : Bytes) (columns : List Bytes)
    → All (λ column. bytes_eq column name ≡ false) columns
    → name_to_index columns name ≡ none
unfolding name_to_index
name_to_index-none name [] h = refl
name_to_index-none name (column ∷ columns) (h, rest) =
    ap
      (λ o. elim o [ some i ↦ some (suc i) | none ↦ if bytes_eq column name then some 0 else none ])
      (name_to_index-none name columns rest)
    ∙ if_false (bytes_eq column name) _ _ h

name_to_index-last :
    (before : List Bytes) (name : Bytes) (behind : List Bytes)
    → All (λ column. bytes_eq column name ≡ false) behind
    → name_to_index (before ++ name ∷ behind) name ≡ some (length before)
unfolding name_to_index
name_to_index-last [] name behind h =
    ap (λ o. elim o [ some i ↦ some (suc i) | none ↦ if bytes_eq name name then some 0 else none ])
      (name_to_index-none name behind h)
    ∙ if_true (bytes_eq name name) _ _ (bytes_eq_refl name)
name_to_index-last (column ∷ before) name behind h =
    ap
      (λ o. elim o [ some i ↦ some (suc i) | none ↦ if bytes_eq column name then some 0 else none ])
      (name_to_index-last before name behind h)

module _ {D V : Type 0} (b : Binding D V) where
  -- As long as there is a row, the field by the name of a column is the field by the index of the
  -- last column that has the name, whatever columns stand before.
  field_named-field_at :
      (r : ResultSet D V) {d : D} (before : List Bytes) (name : Bytes) (behind : List Bytes) (v : V)
      → r.binding ≡ some d
      → b.columns ≡ before ++ name ∷ behind
      → All (λ column. bytes_eq column name ≡ false) behind
      → get_elem? r.fields (length before) ≡ some v
      → (field_named b r name ≡ (some v, none)) × (field_at b r (length before) ≡ (some v, none))
  unfolding field_named field_at
  field_named-field_at r {d} before name behind v h columns last field =
      let index : name_to_index b.columns name ≡ some (length before) =
        ap (λ cs. name_to_index cs name) columns ∙ name_to_index-last before name behind last in
      (
        ap₂
              (λ o (j : Option ℕ). elim o as (λ _. Option V × Option Error) [
                | none ↦ (none, some at_end)
                | some _ ↦ elim j as (λ _. Option V × Option Error) [
                  | none ↦ (none, some unknown_field)
                  | some i ↦ (get_elem? r.fields i, none)
                ]
              ])
              h index
            ∙ ap (λ (f : Option V). (f, none)) field,
        ap₂
            (λ o (f : Option V). elim o as (λ _. Option V × Option Error) [
              | none ↦ (none, some at_end)
              | some _ ↦ elim f as (λ _. Option V × Option Error) [
                | none ↦ (none, some out_of_range)
                | some x ↦ (some x, none)
              ]
            ])
            h field,
      )

  pub data Op : Type 0 where
    op_next op_add op_save : Op
    op_change : ℕ → V → Op

  -- One call, where `op_change` is an assignment that changes a field which is referred to from
  -- before, and calls one after the other, whatever they throw.
  abbrev pub step : Op → ResultSet D V → ResultSet D V × Option Error
  step op_next r = next b r
  step op_add r = add b r
  step op_save r = save b r
  step (op_change i v) r = set_changed b i (record r { fields = set_field i v r.fields })

  abbrev pub steps : List Op → ResultSet D V → ResultSet D V
  steps [] r = r
  steps (op ∷ ops) r = steps ops (step op r).0

  abbrev Ended : ResultSet D V × Option Error → Type 0
  Ended p = p.0.binding ≡ none

  -- Without a binding, each call leaves it so.
  step-Ended : (op : Op) (r : ResultSet D V) → Ended (step op (record r { binding = none }))
  unfolding next add save set_changed set_field is_refused
  step-Ended op_next r = refl
  step-Ended op_add r = refl
  step-Ended op_save r = if_cases Ended r.values_changed _ _ (λ _. refl) (λ _. refl)
  step-Ended (op_change i v) r = if_cases Ended r.fetching _ _ (λ _. refl) (λ _. refl)

  steps-binding :
      (ops : List Op) (r : ResultSet D V) → r.binding ≡ none → (steps ops r).binding ≡ none
  steps-binding [] r h = h
  steps-binding (op ∷ ops) r h =
      steps-binding ops (step op r).0
        (subst (λ o. Ended (step op (record r { binding = o }))) (sym h) (step-Ended op r))

  -- The end is final: whatever is called once there is no more row, `next`, `add` and the access to
  -- fields go on to throw.
  steps-at_end :
      (ops : List Op) (r : ResultSet D V) (i : ℕ) (name : Bytes)
      → r.binding ≡ none
      → (next b (steps ops r) ≡ (steps ops r, some at_end))
        × (add b (steps ops r) ≡ (steps ops r, some at_end))
        × (field_at b (steps ops r) i ≡ (none, some at_end))
        × (field_named b (steps ops r) name ≡ (none, some at_end))
  unfolding next add field_at field_named
  steps-at_end ops r i name h =
      let t = steps ops r in
      let e : t.binding ≡ none = steps-binding ops r h in
      let with_binding : Option D → ResultSet D V = λ o. record t { binding = o } in
      let back : with_binding none ≡ t = ap with_binding (sym e) in
      (
        ap (λ o. next b (with_binding o)) e ∙ ap (λ u. (u, some at_end)) back,
        ap (λ o. add b (with_binding o)) e ∙ ap (λ u. (u, some at_end)) back,
        ap (λ o. field_at b (with_binding o) i) e,
        ap (λ o. field_named b (with_binding o) name) e,
      )
