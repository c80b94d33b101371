-- ===== src/Database/ResultSet/Fields.antt =====
-- Assignments to the fields of a result set: `operator=` of Database.Field with `setChanged`, which it
-- calls at its end.
use open_esl.Prelude.{ℕ, Option, none, some, if◌then◌else◌}
use open_esl.Database.Conversion.{DoubleOps, Value}
use open_esl.Database.Field.{Field, Changed, set_value_operator}
use open_esl.Database.ResultSet.{
  Binding, Error, of_field, ResultSet, set_field, set_changed, field_at,
}

module _ {X D : Type 0} ⦃o : DoubleOps X⦄ (b : Binding D (Field X)) where
  abbrev Row : Type 0
  Row = ResultSet D (Field X)

  -- The field at an index after an assignment, which throws before or after it has changed it.
  unfoldable pub assigned : ℕ → Option (Changed X) → Row → Row × Option Error
  unfolding set_field set_changed
  assigned i none r = (r, some of_field)
  assigned i (some c) r =
      let changed = record r { fields = set_field i c.field r.fields } in
      if c.notified then set_changed b c.field.column_index changed else (changed, none)

  -- `resultSet[i] = v`
  unfoldable pub edit : ℕ → Value X → Row → Row × Option Error
  unfolding field_at set_value_operator assigned
  edit i v r = elim (field_at b r i).0 [
    | none ↦ (r, (field_at b r i).1)
    | some f ↦ assigned i (set_value_operator f v) r
  ]
