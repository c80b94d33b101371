-- ===== src/Database/ResultSet/Tests.antt =====
-- A table of two rows, and the theorems at concrete inputs.
use open_esl.Prelude.{ℕ, ◌≡◌, refl, Bool, true, false, none, some, List, [], ◌∷◌, ◌==◌}
use open_esl.Database.Integers.{integers}
use open_esl.Database.Number.{ℤ, pos, int_eq}
use open_esl.Database.Conversion.{label, label_eq, to_integer, sql_integer, of_integer, label_of}
use open_esl.Database.Field.{
  Field, Changed, set_value_operator, set_value_as, set_value, same_value, write,
}
use open_esl.Database.ResultSet.{
  Called, Binding, cannot_edit, of_binding, ResultSet, set_field, called, save, fetch_called, fetch,
  after_save, next, construct, field_at,
}
use open_esl.Database.ResultSet.Fields.{assigned, edit}
use open_esl.Database.ResultSet.Assignments.{Assigns, edited}
use open_esl.Database.ResultSet.Outcomes.{saved, saved_and_fetched}
use open_esl.Database.ResultSet.Edits.{edit-next, edit-refused_is_saved, next-throws_loses_edits}

-- A field of an integer column, with a value.
abbrev cell : ℕ → ℕ → Field ℤ
cell column_index n = record {
  result_set = true;
  column_index = column_index;
  column_type = sql_integer;
  value_is_null = false;
  value_boolean = false;
  value_integer = pos n;
  value_double = pos 0;
  value_string = [];
}

abbrev row : ℕ → ℕ → List (Field ℤ)
row m n = cell 0 m ∷ cell 1 n ∷ []

-- The rows that are left, and those that were saved.
abbrev Table : Type 0
Table = List (List (Field ℤ)) × List (List (Field ℤ))

abbrev fetch_row : Table → List (Field ℤ) → Called Table (Field ℤ) × Bool
fetch_row ([], saved_rows) fields =
    (record { driver = ([], saved_rows); fields = fields; thrown = none }, false)
fetch_row (x ∷ rows, saved_rows) fields =
    (record { driver = (rows, saved_rows); fields = x; thrown = none }, true)

-- Columns "a" and "b"; the second cannot be edited.
abbrev table : Binding Table (Field ℤ)
table = record {
  columns = (97 ∷ []) ∷ (98 ∷ []) ∷ [];
  fetch = fetch_row;
  is_editable = λ t i. i == 0;
  add = λ t fields. record { driver = t; fields = fields; thrown = none };
  save = λ t fields. record { driver = (t.0, fields ∷ t.1); fields = fields; thrown = none };
}

-- The same, when each fetch throws.
abbrev broken : Binding Table (Field ℤ)
broken = record table {
  fetch = λ t fields. (record { driver = t; fields = fields; thrown = some 5 }, false);
}

abbrev first_row : ResultSet Table (Field ℤ)
first_row = record {
  binding = some (row 3 4 ∷ [], []);
  fields = row 1 2;
  values_changed = false;
  fetching = false;
}

abbrev told : Field ℤ → Changed ℤ
told f = record { field = f; notified = true }

construct_fetches :
    construct table (cell 0 0) (some (row 1 2 ∷ row 3 4 ∷ [], [])) ≡ (first_row, none)
unfolding construct next save fetch fetch_called called after_save
construct_fetches = refl

-- The value that the field holds already is accepted, though the column cannot be edited.
same_value_accepted : edit ⦃o = integers⦄ table 1 (of_integer (pos 2)) first_row ≡ (first_row, none)
unfolding edit assigned field_at set_value_operator set_value_as set_value same_value to_integer
    label label_eq label_of int_eq set_field
same_value_accepted = refl

change_of_first : Assigns ⦃o = integers⦄ 0 (of_integer (pos 9)) first_row (told (cell 0 9))
unfolding set_value_operator set_value_as set_value same_value to_integer label label_eq label_of
    int_eq write
change_of_first = record { field = cell 0 1; at = refl; converted = refl; index = refl }

edit-next_example :
    next table (edit ⦃o = integers⦄ table 0 (of_integer (pos 9)) first_row).0
    ≡ saved_and_fetched table (table.save (row 3 4 ∷ [], []) (set_field 0 (cell 0 9) (row 1 2)))
edit-next_example =
    edit-next ⦃o = integers⦄ table 0 (of_integer (pos 9)) first_row (told (cell 0 9)) refl refl
      change_of_first refl refl

change_of_second : Assigns ⦃o = integers⦄ 1 (of_integer (pos 7)) first_row (told (cell 1 7))
unfolding set_value_operator set_value_as set_value same_value to_integer label label_eq label_of
    int_eq write
change_of_second = record { field = cell 1 2; at = refl; converted = refl; index = refl }

change_after_refusal :
    Assigns ⦃o = integers⦄ 0
      (of_integer (pos 9))
      (edited ⦃o = integers⦄ 1 (told (cell 1 7)) first_row)
      (told (cell 0 9))
unfolding set_value_operator set_value_as set_value same_value to_integer label label_eq label_of
    int_eq write set_field
change_after_refusal = record { field = cell 0 1; at = refl; converted = refl; index = refl }

edit-refused_is_saved_example :
    (edit ⦃o = integers⦄ table 1 (of_integer (pos 7)) first_row
      ≡ (edited ⦃o = integers⦄ 1 (told (cell 1 7)) first_row, some cannot_edit))
    × (save table
          (edit ⦃o = integers⦄ table 0
            (of_integer (pos 9))
            (edit ⦃o = integers⦄ table 1 (of_integer (pos 7)) first_row).0).0
        ≡ saved table (
            table.save
              (row 3 4 ∷ [], [])
              (set_field 0 (cell 0 9) (set_field 1 (cell 1 7) (row 1 2)))))
edit-refused_is_saved_example =
    edit-refused_is_saved ⦃o = integers⦄ table 1 0 (of_integer (pos 7)) (of_integer (pos 9))
      first_row (told (cell 1 7)) (told (cell 0 9)) refl refl change_of_second refl refl
      change_after_refusal refl refl

change_when_stuck :
    Assigns ⦃o = integers⦄ 1 (of_integer (pos 7)) (next broken first_row).0 (told (cell 1 7))
unfolding set_value_operator set_value_as set_value same_value to_integer label label_eq label_of
    int_eq write next save fetch fetch_called called after_save
change_when_stuck = record { field = cell 1 2; at = refl; converted = refl; index = refl }

next-throws_loses_edits_example :
    ((next broken first_row).1 ≡ some (of_binding 5))
    × (edit ⦃o = integers⦄ broken 1 (of_integer (pos 7)) (next broken first_row).0
        ≡ (edited ⦃o = integers⦄ 1 (told (cell 1 7)) (next broken first_row).0, none))
    × (save broken (edit ⦃o = integers⦄ broken 1 (of_integer (pos 7)) (next broken first_row).0).0
        ≡ (edited ⦃o = integers⦄ 1 (told (cell 1 7)) (next broken first_row).0, none))
next-throws_loses_edits_example =
    next-throws_loses_edits ⦃o = integers⦄ broken 1 (of_integer (pos 7)) first_row (told (cell 1 7))
      5 refl refl refl change_when_stuck
