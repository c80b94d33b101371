-- ===== src/Database/Column.antt =====
-- esl/src/esl/database/Column.h and Column.cpp. Sizes are numbers below 2 ^ 64.
pub mod Names
pub mod Buffer
mod Tests
use open_esl.Prelude.{
  max, ℕ, ◌-◌, ◌^◌, refl, Bool, ◌&&◌, [], ◌∷◌, ltb, leb, if◌then◌else◌, length, Bytes,
}
use open_esl.Database.Conversion.{
  ColumnType, sql_boolean, sql_integer, sql_small_int, sql_double, sql_numeric, sql_decimal,
  sql_float, sql_real, sql_var_char, sql_char, sql_date_time, sql_date, sql_time, sql_timestamp,
  sql_w_char, sql_w_var_char, sql_w_long_var_char, sql_unknown,
}

pub record Column : Type 0 where
  pub name : Bytes
  pub column_type : ColumnType
  pub nullable : Bool
  pub default_buffer_size : ℕ
  pub maximum_buffer_size : ℕ
  pub character_length : ℕ
  pub decimal_digits : ℕ
  pub display_length : ℕ

-- The constructor, with the arguments in its order.
unfoldable pub new_column : Bytes → ColumnType → Bool → ℕ → ℕ → ℕ → ℕ → ℕ → Column
new_column name column_type nullable default_size maximum_size digits characters display = record {
  name = name;
  column_type = column_type;
  nullable = nullable;
  default_buffer_size = default_size;
  maximum_buffer_size =
      if ltb 0 maximum_size && ltb maximum_size default_size then default_size else maximum_size;
  character_length = characters;
  decimal_digits = digits;
  display_length = display;
}

unfoldable pub to_string : ColumnType → Bytes
-- "SQL_BOOLEAN"
to_string sql_boolean = 83 ∷ 81 ∷ 76 ∷ 95 ∷ 66 ∷ 79 ∷ 79 ∷ 76 ∷ 69 ∷ 65 ∷ 78 ∷ []
-- "SQL_INTEGER"
to_string sql_integer = 83 ∷ 81 ∷ 76 ∷ 95 ∷ 73 ∷ 78 ∷ 84 ∷ 69 ∷ 71 ∷ 69 ∷ 82 ∷ []
-- "SQL_SMALLINT"
to_string sql_small_int = 83 ∷ 81 ∷ 76 ∷ 95 ∷ 83 ∷ 77 ∷ 65 ∷ 76 ∷ 76 ∷ 73 ∷ 78 ∷ 84 ∷ []
-- "SQL_DOUBLE"
to_string sql_double = 83 ∷ 81 ∷ 76 ∷ 95 ∷ 68 ∷ 79 ∷ 85 ∷ 66 ∷ 76 ∷ 69 ∷ []
-- "SQL_NUMERIC"
to_string sql_numeric = 83 ∷ 81 ∷ 76 ∷ 95 ∷ 78 ∷ 85 ∷ 77 ∷ 69 ∷ 82 ∷ 73 ∷ 67 ∷ []
-- "SQL_DECIMAL"
to_string sql_decimal = 83 ∷ 81 ∷ 76 ∷ 95 ∷ 68 ∷ 69 ∷ 67 ∷ 73 ∷ 77 ∷ 65 ∷ 76 ∷ []
-- "SQL_FLOAT"
to_string sql_float = 83 ∷ 81 ∷ 76 ∷ 95 ∷ 70 ∷ 76 ∷ 79 ∷ 65 ∷ 84 ∷ []
-- "SQL_REAL"
to_string sql_real = 83 ∷ 81 ∷ 76 ∷ 95 ∷ 82 ∷ 69 ∷ 65 ∷ 76 ∷ []
-- "SQL_VARCHAR"
to_string sql_var_char = 83 ∷ 81 ∷ 76 ∷ 95 ∷ 86 ∷ 65 ∷ 82 ∷ 67 ∷ 72 ∷ 65 ∷ 82 ∷ []
-- "SQL_CHAR"
to_string sql_char = 83 ∷ 81 ∷ 76 ∷ 95 ∷ 67 ∷ 72 ∷ 65 ∷ 82 ∷ []
-- "SQL_DATETIME"
to_string sql_date_time = 83 ∷ 81 ∷ 76 ∷ 95 ∷ 68 ∷ 65 ∷ 84 ∷ 69 ∷ 84 ∷ 73 ∷ 77 ∷ 69 ∷ []
-- "SQL_TYPE_DATE"
to_string sql_date = 83 ∷ 81 ∷ 76 ∷ 95 ∷ 84 ∷ 89 ∷ 80 ∷ 69 ∷ 95 ∷ 68 ∷ 65 ∷ 84 ∷ 69 ∷ []
-- "SQL_TYPE_TIME"
to_string sql_time = 83 ∷ 81 ∷ 76 ∷ 95 ∷ 84 ∷ 89 ∷ 80 ∷ 69 ∷ 95 ∷ 84 ∷ 73 ∷ 77 ∷ 69 ∷ []
-- "SQL_TYPE_TIMESTAMP"
to_string sql_timestamp =
    83 ∷ 81 ∷ 76 ∷ 95 ∷ 84 ∷ 89 ∷ 80 ∷ 69 ∷ 95 ∷ 84 ∷ 73 ∷ 77 ∷ 69 ∷ 83 ∷ 84 ∷ 65 ∷ 77 ∷ 80 ∷ []
-- "SQL_WCHAR"
to_string sql_w_char = 83 ∷ 81 ∷ 76 ∷ 95 ∷ 87 ∷ 67 ∷ 72 ∷ 65 ∷ 82 ∷ []
-- "SQL_WVARCHAR"
to_string sql_w_var_char = 83 ∷ 81 ∷ 76 ∷ 95 ∷ 87 ∷ 86 ∷ 65 ∷ 82 ∷ 67 ∷ 72 ∷ 65 ∷ 82 ∷ []
-- "SQL_WLONGVARCHAR"
to_string sql_w_long_var_char =
    83 ∷ 81 ∷ 76 ∷ 95 ∷ 87 ∷ 76 ∷ 79 ∷ 78 ∷ 71 ∷ 86 ∷ 65 ∷ 82 ∷ 67 ∷ 72 ∷ 65 ∷ 82 ∷ []
-- "unknown"
to_string sql_unknown = 117 ∷ 110 ∷ 107 ∷ 110 ∷ 111 ∷ 119 ∷ 110 ∷ []

unfoldable pub get_type_name : Column → Bytes
unfolding to_string
get_type_name c = to_string c.column_type

unfoldable pub get_buffer_size : Column → ℕ
get_buffer_size c =
    let longest = max c.character_length c.display_length in
    let size = if leb (2 ^ 64 - 1) longest then c.default_buffer_size else longest in
    if ltb 0 c.maximum_buffer_size && ltb c.maximum_buffer_size size
    then c.default_buffer_size
    else size
