-- ===== src/Database/Column/Names.antt =====
-- The names of the types tell them apart.
use open_esl.Prelude.{
  ◌≡◌, refl, sym, ap, ◌∙◌, Option, none, some, some-injective, List, [], ◌∷◌, if◌then◌else◌, Bytes,
  bytes_eq,
}
use open_esl.Database.Conversion.{
  ColumnType, sql_boolean, sql_integer, sql_small_int, sql_double, sql_numeric, sql_decimal,
  sql_float, sql_real, sql_var_char, sql_char, sql_date_time, sql_date, sql_time, sql_timestamp,
  sql_w_char, sql_w_var_char, sql_w_long_var_char, sql_unknown,
}
use open_esl.Database.Column.{to_string}

abbrev all_types : List ColumnType
all_types =
    sql_boolean ∷ sql_integer ∷ sql_small_int ∷ sql_double ∷ sql_numeric ∷ sql_decimal ∷ sql_float
    ∷ sql_real ∷ sql_var_char ∷ sql_char ∷ sql_date_time ∷ sql_date ∷ sql_time ∷ sql_timestamp
    ∷ sql_w_char ∷ sql_w_var_char ∷ sql_w_long_var_char ∷ sql_unknown ∷ []

-- The first type with the name.
abbrev find_type : Bytes → List ColumnType → Option ColumnType
find_type name [] = none
find_type name (t ∷ types) =
    let rest = find_type name types in if bytes_eq (to_string t) name then some t else rest

find_type-to_string : (t : ColumnType) → find_type (to_string t) all_types ≡ some t
unfolding to_string bytes_eq
find_type-to_string sql_boolean = refl
find_type-to_string sql_integer = refl
find_type-to_string sql_small_int = refl
find_type-to_string sql_double = refl
find_type-to_string sql_numeric = refl
find_type-to_string sql_decimal = refl
find_type-to_string sql_float = refl
find_type-to_string sql_real = refl
find_type-to_string sql_var_char = refl
find_type-to_string sql_char = refl
find_type-to_string sql_date_time = refl
find_type-to_string sql_date = refl
find_type-to_string sql_time = refl
find_type-to_string sql_timestamp = refl
find_type-to_string sql_w_char = refl
find_type-to_string sql_w_var_char = refl
find_type-to_string sql_w_long_var_char = refl
find_type-to_string sql_unknown = refl

-- Different types have different names.
to_string-injective : (a b : ColumnType) → to_string a ≡ to_string b → a ≡ b
to_string-injective a b h =
    some-injective _ _ (
      sym (find_type-to_string a) ∙ ap (λ name. find_type name all_types) h ∙ find_type-to_string b)
