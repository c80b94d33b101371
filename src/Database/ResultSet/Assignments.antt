-- ===== src/Database/ResultSet/Assignments.antt =====
-- What an assignment to a field leaves, by what `setChanged` does.
use open_esl.Prelude.{
  ℕ, ◌≡◌, refl, ap, ◌∙◌, inl, inr, true, false, Option, none, some, if◌then◌else◌, Option-cases,
  if_cases, if_true, if_false, get_elem?,
}
use open_esl.Database.Conversion.{DoubleOps, Value}
use open_esl.Database.Field.{Field, Changed, set_value_operator}
use open_esl.Database.ResultSet.{
  Binding, Error, cannot_edit, out_of_range, ResultSet, set_field, is_refused, set_changed,
  field_at,
}
use open_esl.Database.ResultSet.Fields.{assigned, edit}

module _ {X D : Type 0} ⦃o : DoubleOps X⦄ where
  -- The value can be assigned to the field at the index, and leaves there what `c` says.
  pub record Assigns (i : ℕ) (v : Value X) (r : ResultSet D (Field X)) (c : Changed X)
      : Type 0 where
    pub field : Field X
    pub at : get_elem? r.fields i ≡ some field
    pub converted : set_value_operator field v ≡ some c
    pub index : c.field.column_index ≡ i

  -- The field at `i` after an assignment.
  abbrev pub edited : ℕ → Changed X → ResultSet D (Field X) → ResultSet D (Field X)
  edited i c r = record r { fields = set_field i c.field r.fields }

module _ {X D : Type 0} ⦃o : DoubleOps X⦄ (b : Binding D (Field X)) where
  abbrev Row : Type 0
  Row = ResultSet D (Field X)

  field_at-some :
      (i : ℕ) (r : Row) {d : D} (f : Field X)
      → r.binding ≡ some d
      → get_elem? r.fields i ≡ some f
      → field_at b r i ≡ (some f, none)
  unfolding field_at
  field_at-some i r {d} f h at =
      ap (λ x. field_at b (record r { binding = x }) i) h
      ∙ ap
          (λ m. elim m as (λ _. Option (Field X) × Option Error) [
            | none ↦ (none, some out_of_range)
            | some v ↦ (some v, none)
          ])
          at

  edit-Assigns :
      (i : ℕ) (v : Value X) (r : Row) (c : Changed X) {d : D}
      → r.binding ≡ some d
      → Assigns i v r c
      → edit b i v r ≡ (if c.notified then set_changed b i (edited i c r) else (edited i c r, none))
  unfolding edit assigned
  edit-Assigns i v r c {d} h a =
      ap
        (λ (p : Option (Field X) × Option Error). elim p.0 as (λ _. Row × Option Error) [
          | none ↦ (r, p.1)
          | some f ↦ assigned b i (set_value_operator f v) r
        ])
        (field_at-some i r a.field h a.at)
      ∙ ap (λ m. assigned b i m r) a.converted
      ∙ ap (λ k. if c.notified then set_changed b k (edited i c r) else (edited i c r, none))
          a.index

  set_changed-accepted :
      (i : ℕ) (r : Row) {d : D}
      → r.binding ≡ some d
      → r.fetching ≡ false
      → b.is_editable d i ≡ true
      → set_changed b i r ≡ (record r { values_changed = true }, none)
  unfolding set_changed is_refused
  set_changed-accepted i r {d} h free k = rw (h, free, k) refl

  set_changed-refused :
      (i : ℕ) (r : Row) {d : D}
      → r.binding ≡ some d
      → r.fetching ≡ false
      → b.is_editable d i ≡ false
      → set_changed b i r ≡ (r, some cannot_edit)
  unfolding set_changed is_refused
  set_changed-refused i r {d} h free k = rw (h, free, k) refl

  set_changed-fetching : (i : ℕ) (r : Row) → r.fetching ≡ true → set_changed b i r ≡ (r, none)
  unfolding set_changed is_refused
  set_changed-fetching i r busy =
      let accepted : is_refused b i r ≡ false = elim (Option-cases r.binding) [
        | inl h ↦ rw h refl
        | inr h ↦ rw (h.1, busy) refl
      ] in
      if_false (is_refused b i r) _ _ accepted ∙ if_true r.fetching _ _ busy

  pub edit-accepted :
      (i : ℕ) (v : Value X) (r : Row) (c : Changed X) {d : D}
      → r.binding ≡ some d
      → r.fetching ≡ false
      → Assigns i v r c
      → c.notified ≡ true
      → b.is_editable d i ≡ true
      → edit b i v r ≡ (record (edited i c r) { values_changed = true }, none)
  edit-accepted i v r c h free a told k =
      edit-Assigns i v r c h a
      ∙ if_true c.notified _ _ told
      ∙ set_changed-accepted i (edited i c r) h free k

  pub edit-refused :
      (i : ℕ) (v : Value X) (r : Row) (c : Changed X) {d : D}
      → r.binding ≡ some d
      → r.fetching ≡ false
      → Assigns i v r c
      → c.notified ≡ true
      → b.is_editable d i ≡ false
      → edit b i v r ≡ (edited i c r, some cannot_edit)
  edit-refused i v r c h free a told k =
      edit-Assigns i v r c h a
      ∙ if_true c.notified _ _ told
      ∙ set_changed-refused i (edited i c r) h free k

  pub edit-fetching :
      (i : ℕ) (v : Value X) (r : Row) (c : Changed X) {d : D}
      → r.binding ≡ some d
      → r.fetching ≡ true
      → Assigns i v r c
      → edit b i v r ≡ (edited i c r, none)
  edit-fetching i v r c h busy a =
      edit-Assigns i v r c h a
      ∙ if_cases (λ x. x ≡ (edited i c r, none)) c.notified _ _
          (λ _. set_changed-fetching i (edited i c r) busy) (λ _. refl)
