-- ===== src/Database/Conversion.antt =====
-- The types of esl/src/esl/database/Field.h and Column.h, and the conversions of Field.cpp. `double`
-- is a parameter of the model with the operations that the code applies to it. Where the code throws,
-- the result is `none`.
use open_esl.Prelude.{Bool, true, false, not, Option, some, [], ◌∷◌, if◌then◌else◌, Bytes}
use open_esl.Database.Number.{ℤ, pos, int_eq, print_integer, stoll}

-- What the code does with a `double`: conversions, `std::to_string`, `std::stod`, `==`, and the test
-- `i >= 0.5 || i <= -0.5`.
pub record DoubleOps (D : Type 0) : Type 0 where
  pub of_integer : ℤ → D
  pub to_integer : D → ℤ
  pub print : D → Bytes
  pub stod : Bytes → Option D
  pub same : D → D → Bool
  pub at_least_half : D → Bool

-- `Column::Type`
pub data ColumnType : Type 0 where
  sql_unknown sql_boolean sql_integer sql_small_int sql_double sql_numeric : ColumnType
  sql_decimal sql_float sql_real sql_var_char sql_char sql_date_time sql_date : ColumnType
  sql_time sql_timestamp sql_w_char sql_w_var_char sql_w_long_var_char : ColumnType

-- `Field::Type`
pub data FieldType : Type 0 where
  storage_boolean storage_integer storage_double storage_string storage_empty : FieldType

unfoldable pub to_field_type : ColumnType → FieldType
to_field_type sql_unknown = storage_empty
to_field_type sql_boolean = storage_boolean
to_field_type sql_integer = storage_integer
to_field_type sql_small_int = storage_integer
to_field_type sql_double = storage_double
to_field_type sql_numeric = storage_double
to_field_type sql_decimal = storage_double
to_field_type sql_float = storage_double
to_field_type sql_real = storage_double
to_field_type _ = storage_string

unfoldable pub to_column_type : FieldType → ColumnType
to_column_type storage_boolean = sql_boolean
to_column_type storage_integer = sql_integer
to_column_type storage_double = sql_double
to_column_type storage_string = sql_var_char
to_column_type storage_empty = sql_unknown

-- The groups of case labels that the `switch` statements over `columnType` share: those of one
-- storage, `sqlUnknown`, and `default`.
pub data Label : Type 0 where
  boolean integer double string unknown other : Label

unfoldable pub label : ColumnType → Label
label sql_unknown = unknown
label sql_boolean = boolean
label sql_integer = integer
label sql_small_int = integer
label sql_double = double
label sql_numeric = double
label sql_decimal = double
label sql_float = double
label sql_real = double
label sql_var_char = string
label sql_char = string
label _ = other

-- The argument of the overloads of `setValue` and `operator=`, and of the conversions.
pub data Value (D : Type 0) : Type 0 where
  of_boolean : Bool → Value D
  of_integer : ℤ → Value D
  of_double : D → Value D
  of_string : Bytes → Value D

unfoldable pub label_eq : Label → Label → Bool
label_eq boolean boolean = true
label_eq integer integer = true
label_eq double double = true
label_eq string string = true
label_eq unknown unknown = true
label_eq other other = true
label_eq _ _ = false

abbrev pub true_text : Bytes
true_text = b't' ∷ b'r' ∷ b'u' ∷ b'e' ∷ []

abbrev pub false_text : Bytes
false_text = b'f' ∷ b'a' ∷ b'l' ∷ b's' ∷ b'e' ∷ []

module _ {D : Type 0} ⦃o : DoubleOps D⦄ where
  open o use {print, stod, at_least_half}

  unfoldable pub to_string : Value D → Bytes
  to_string (of_boolean b) = if b then true_text else false_text
  to_string (of_integer i) = print_integer i
  to_string (of_double d) = print d
  to_string (of_string s) = s

  unfoldable pub to_integer : Value D → Option ℤ
  to_integer (of_boolean b) = some (if b then pos 1 else pos 0)
  to_integer (of_integer i) = some i
  to_integer (of_double d) = some (o.to_integer d)
  to_integer (of_string s) = stoll s

  unfoldable pub to_double : Value D → Option D
  to_double (of_boolean b) = some (o.of_integer (if b then pos 1 else pos 0))
  to_double (of_integer i) = some (o.of_integer i)
  to_double (of_double d) = some d
  to_double (of_string s) = stod s

  -- `toBoolean(const std::string&)` transforms the text into the start of the empty string `s`. What
  -- that writes out of its bounds is undefined and not modelled; `s` stays empty, and no comparison
  -- with it holds.
  unfoldable pub to_boolean : Value D → Bool
  to_boolean (of_boolean b) = b
  to_boolean (of_integer i) = not (int_eq i (pos 0))
  to_boolean (of_double d) = at_least_half d
  to_boolean (of_string s) = false

module _ {D : Type 0} where
  -- The label under which a `setValue` does not throw, and the type it gives to an unknown column.
  unfoldable pub label_of : Value D → Label
  label_of (of_boolean b) = boolean
  label_of (of_integer i) = integer
  label_of (of_double d) = double
  label_of (of_string s) = string

  unfoldable pub type_of : Value D → ColumnType
  type_of (of_boolean b) = sql_boolean
  type_of (of_integer i) = sql_integer
  type_of (of_double d) = sql_double
  type_of (of_string s) = sql_var_char
