-- ===== src/Database/Field.antt =====
-- The class of esl/src/esl/database/Field.h and Field.cpp. Where the code throws
-- before it changes the field, the result is `none`.
pub mod Held
pub mod Assign
pub mod Copy
mod Tests
use open_esl.Prelude.{
  ℕ, refl, Bool, true, false, not, ◌&&◌, Option, none, some, [], if◌then◌else◌, Bytes, bytes_eq,
}
use open_esl.Database.Conversion.{
  DoubleOps, ColumnType, sql_unknown, FieldType, storage_boolean, storage_integer, storage_double,
  storage_string, storage_empty, to_field_type, Label, boolean, integer, double, string, unknown,
  other, label, label_eq, Value, of_boolean, of_integer, of_double, of_string, to_string,
  to_integer, to_double, to_boolean, label_of, type_of,
}
use open_esl.Database.Number.{ℤ, pos, int_eq, print_integer, stoll}

pub record Field (D : Type 0) : Type 0 where
  pub result_set : Bool
  pub column_index : ℕ
  pub column_type : ColumnType
  pub value_is_null : Bool
  pub value_boolean : Bool
  pub value_integer : ℤ
  pub value_double : D
  pub value_string : Bytes

-- A field after a call, and whether `resultSet->setChanged(columnIndex)` is called, which is the last
-- statement of the call: what it throws, the call throws (`throws`), and the field is changed then.
pub record Changed (D : Type 0) : Type 0 where
  pub field : Field D
  pub notified : Bool

-- Whether the call throws what `setChanged` throws, where `refuses` is whether that throws for a
-- column index.
unfoldable pub throws : {D : Type 0} → (ℕ → Bool) → Changed D → Bool
throws refuses c = c.notified && refuses c.field.column_index

module _ {D : Type 0} ⦃o : DoubleOps D⦄ where
  open o use {same}

  -- The member that `asBoolean` and the other readers take, by the label.
  unfoldable pub stored : Field D → Label → Option (Value D)
  stored f boolean = some (of_boolean f.value_boolean)
  stored f integer = some (of_integer f.value_integer)
  stored f double = some (of_double f.value_double)
  stored f string = some (of_string f.value_string)
  stored f unknown = none
  stored f other = none

  unfoldable pub as_boolean : Field D → Option Bool
  unfolding to_boolean stored label
  as_boolean f = if f.value_is_null then none else elim (stored f (label f.column_type)) [
    | none ↦ some false
    | some v ↦ some (to_boolean v)
  ]

  unfoldable pub as_integer : Field D → Option ℤ
  unfolding to_integer stored label
  as_integer f =
      if f.value_is_null
      then none
      else elim (stored f (label f.column_type)) [ none ↦ some (pos 0) | some v ↦ to_integer v ]

  unfoldable pub as_double : Field D → Option D
  unfolding to_double stored label
  as_double f = if f.value_is_null then none else elim (stored f (label f.column_type)) [
    | none ↦ some (o.of_integer (pos 0))
    | some v ↦ to_double v
  ]

  unfoldable pub as_string : Field D → Option Bytes
  unfolding to_string stored label
  as_string f =
      if f.value_is_null
      then none
      else elim (stored f (label f.column_type)) [ none ↦ some [] | some v ↦ some (to_string v) ]

  -- `if(valueIsNull == false && value... == value)`
  unfoldable pub same_value : Field D → Value D → Bool
  unfolding int_eq bytes_eq
  same_value f (of_boolean b) = if b then f.value_boolean else not f.value_boolean
  same_value f (of_integer i) = int_eq f.value_integer i
  same_value f (of_double d) = same f.value_double d
  same_value f (of_string s) = bytes_eq f.value_string s

  unfoldable pub write : Field D → Value D → Field D
  write f (of_boolean b) = record f { value_is_null = false; value_boolean = b }
  write f (of_integer i) = record f { value_is_null = false; value_integer = i }
  write f (of_double d) = record f { value_is_null = false; value_double = d }
  write f (of_string s) = record f { value_is_null = false; value_string = s }

  -- The four overloads of `setValue`.
  unfoldable pub set_value : Field D → Value D → Option (Changed D)
  unfolding same_value label_of type_of write label_eq label
  set_value f v =
      let f' = record f { column_type = type_of v } in
      if label_eq (label f.column_type) unknown
      then some (record { field = write f' v; notified = f.result_set })
      else if not (label_eq (label f.column_type) (label_of v))
      then none
      else if not f.value_is_null && same_value f v
      then some (record { field = f; notified = false })
      else some (record { field = write f v; notified = f.result_set })

  -- The `switch` of `setValueOperator`.
  unfoldable pub set_value_as : Label → Field D → Value D → Option (Changed D)
  unfolding set_value to_string to_integer to_double to_boolean
  set_value_as boolean f v = set_value f (of_boolean (to_boolean v))
  set_value_as integer f v = elim (to_integer v) [
    | none ↦ none
    | some i ↦ set_value f (of_integer i)
  ]
  set_value_as double f v = elim (to_double v) [ none ↦ none | some d ↦ set_value f (of_double d) ]
  set_value_as string f v = set_value f (of_string (to_string v))
  set_value_as unknown f v = set_value f v
  set_value_as other f v = some (record { field = f; notified = false })

  -- `setValueOperator`, which the overloads of `operator=` for values call.
  unfoldable pub set_value_operator : Field D → Value D → Option (Changed D)
  unfolding set_value_as label
  set_value_operator f v = set_value_as (label f.column_type) f v

  -- `operator=(std::nullptr_t)`
  unfoldable pub assign_null : Field D → Changed D
  assign_null f =
      if f.value_is_null
      then record { field = f; notified = false }
      else record { field = record f { value_is_null = true }; notified = f.result_set }

  -- The member that `setValue` is called with by the copy constructor and the copy assignment.
  unfoldable pub copied : Field D → FieldType → Option (Value D)
  copied f storage_boolean = some (of_boolean f.value_boolean)
  copied f storage_integer = some (of_integer f.value_integer)
  copied f storage_double = some (of_double f.value_double)
  copied f storage_string = some (of_string f.value_string)
  copied f storage_empty = none

  -- `operator=(const Field&)`
  unfoldable pub assign_field : Field D → Field D → Option (Changed D)
  unfolding assign_null copied to_field_type set_value
  assign_field f a_field =
      let f' = if f.result_set then f else record f { column_type = a_field.column_type } in
      if a_field.value_is_null
      then some (assign_null f')
      else elim (copied a_field (to_field_type a_field.column_type)) [
        | none ↦ some (record { field = f'; notified = false })
        | some v ↦ set_value f' v
      ]

  -- A field with the default members, of the given column type.
  unfoldable pub new_field : ColumnType → Field D
  new_field column_type = record {
    result_set = false;
    column_index = 0;
    column_type = column_type;
    value_is_null = true;
    value_boolean = false;
    value_integer = pos 0;
    value_double = o.of_integer (pos 0);
    value_string = [];
  }

  -- `Field(const Field&)`
  unfoldable pub copy_field : Field D → Option (Changed D)
  unfolding assign_null copied to_field_type set_value new_field
  copy_field a_field =
      let f = new_field a_field.column_type in
      if a_field.value_is_null
      then some (assign_null f)
      else elim (copied a_field (to_field_type a_field.column_type)) [
        | none ↦ some (record { field = f; notified = false })
        | some v ↦ set_value f v
      ]

  -- `Field(Field&&)` and `operator=(Field&&)` of another field: the new field, and what is left, with
  -- the moved-from text `moved`.
  unfoldable pub move_field : Bytes → Field D → Field D × Field D
  move_field moved f = (
    f,
    record f {
      result_set = false;
      column_index = 0;
      column_type = sql_unknown;
      value_is_null = true;
    },
  )
