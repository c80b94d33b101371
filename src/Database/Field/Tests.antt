-- ===== src/Database/Field/Tests.antt =====
-- Runs of a field, with integers in the place of doubles, and the theorems at concrete inputs.
use open_esl.Database.Integers.{integers}
use open_esl.Prelude.{◌==◌, ◌≡◌, refl, true, false, none, some, [], ◌∷◌}
use open_esl.Database.Number.{ℤ, pos, stoll}
use open_esl.Database.Conversion.{
  label, label_eq, to_integer, sql_small_int, sql_date, of_integer, of_string,
}
use open_esl.Database.Field.{throws, Field, Changed, set_value_operator, new_field, copy_field}
use open_esl.Database.Field.Held.{Holds}
use open_esl.Database.Field.Copy.{Copies, copy_field-Copies}
use open_esl.Database.Field.Assign.{set_value_operator_lem}

abbrev small_column : Field ℤ
unfolding new_field
small_column = record (new_field ⦃o = integers⦄ sql_small_int) { result_set = true }

-- The result set refuses the only column.
set_value_operator_lem_example :
    (g : Changed ℤ) × (set_value_operator ⦃o = integers⦄ small_column (of_string (b'1' ∷ b'2' ∷ []))
      ≡ some g)
    × Holds ⦃o = integers⦄ small_column (of_integer (pos 12)) g
    × (throws (λ i. i == 0) g ≡ true)
unfolding label label_eq small_column to_integer stoll
set_value_operator_lem_example =
    set_value_operator_lem ⦃o = integers⦄ small_column (of_string (b'1' ∷ b'2' ∷ []))
      (of_integer (pos 12)) (λ i. i == 0) refl

-- The copy of a field that holds a date throws.
copy_runs :
    copy_field ⦃o = integers⦄ (record (new_field ⦃o = integers⦄ sql_date) { value_is_null = false })
    ≡ none
unfolding copy_field new_field
copy_runs = refl

abbrev answer : Field ℤ
answer = record small_column { value_is_null = false; value_integer = pos 42 }

copy_field-Copies_example : Copies ⦃o = integers⦄ answer
unfolding label small_column
copy_field-Copies_example = copy_field-Copies ⦃o = integers⦄ answer (λ e. cc)
