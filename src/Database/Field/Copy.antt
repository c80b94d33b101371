-- ===== src/Database/Field/Copy.antt =====
-- What the copy constructor of a field keeps.
use open_esl.Prelude.{
  ap, ◌∙◌, not, ◌&&◌, Bool, Option, ◌≡◌, refl, sym, subst, ◌≢◌, ◌⊎◌, inl, inr, true, false, none,
  some, Bool-cases,
}
use open_esl.Database.Conversion.{
  DoubleOps, ColumnType, sql_unknown, sql_boolean, sql_integer, sql_small_int, sql_double,
  sql_numeric, sql_decimal, sql_float, sql_real, sql_var_char, sql_char, sql_date_time, sql_date,
  sql_time, sql_timestamp, sql_w_char, sql_w_var_char, sql_w_long_var_char, to_field_type, unknown,
  label, Value, of_boolean, of_integer, of_double, of_string,
}
use open_esl.Database.Field.{
  Field, Changed, stored, as_boolean, as_integer, as_double, as_string, write, set_value,
  assign_null, copied, new_field, copy_field,
}

abbrev pub is_none {ℓ} : {A : Type ℓ} → Option A → Bool
is_none none = true
is_none (some a) = false

abbrev pub is_date_or_wide : ColumnType → Bool
is_date_or_wide sql_date_time = true
is_date_or_wide sql_date = true
is_date_or_wide sql_time = true
is_date_or_wide sql_timestamp = true
is_date_or_wide sql_w_char = true
is_date_or_wide sql_w_var_char = true
is_date_or_wide sql_w_long_var_char = true
is_date_or_wide _ = false

module _ {D : Type 0} ⦃o : DoubleOps D⦄ where
  -- All that can be read of two fields is the same.
  pub record ReadsAs (f g : Field D) : Type 0 where
    pub same_type : g.column_type ≡ f.column_type
    pub same_boolean : as_boolean g ≡ as_boolean f
    pub same_integer : as_integer g ≡ as_integer f
    pub same_double : as_double g ≡ as_double f
    pub same_string : as_string g ≡ as_string f

  -- The copy throws exactly for a date, a time or a text of wide characters that is not null, and
  -- otherwise gives a field that reads as the one that is copied.
  abbrev pub Copies : Field D → Type 0
  Copies f =
      (is_none (copy_field f) ≡ (not f.value_is_null && is_date_or_wide f.column_type))
      × ((copy_field f ≡ none) ⊎ ((g : Changed D) × (copy_field f ≡ some g) × ReadsAs f g.field))

  copied_as :
      (f : Field D) (c : ColumnType) (w : Value D)
      → let f' = record f { column_type = c; value_is_null = false } in
        let g = write (new_field c) w in
        copy_field f' ≡ some (record { field = g; notified = false })
        → is_date_or_wide c ≡ false
        → g.column_type ≡ c
        → as_boolean g ≡ as_boolean f'
        → as_integer g ≡ as_integer f'
        → as_double g ≡ as_double f'
        → as_string g ≡ as_string f'
        → Copies f'
  copied_as f c w h narrow t b i d s = (
    ap is_none h ∙ sym narrow,
    inr (
      record { field = write (new_field c) w; notified = false },
      h,
      record {
        same_type = t;
        same_boolean = b;
        same_integer = i;
        same_double = d;
        same_string = s;
      },
    ),
  )

  copy_at :
      (c : ColumnType) (f : Field D)
      → label c ≢ unknown
      → Copies (record f { column_type = c; value_is_null = false })
  unfolding copy_field new_field copied to_field_type set_value label write as_boolean as_integer
      as_double as_string stored
  copy_at sql_unknown f h = absurd (h refl)
  copy_at sql_boolean f h =
      copied_as f sql_boolean (of_boolean f.value_boolean) refl refl refl refl refl refl refl
  copy_at sql_integer f h =
      copied_as f sql_integer (of_integer f.value_integer) refl refl refl refl refl refl refl
  copy_at sql_small_int f h =
      copied_as f sql_small_int (of_integer f.value_integer) refl refl refl refl refl refl refl
  copy_at sql_double f h =
      copied_as f sql_double (of_double f.value_double) refl refl refl refl refl refl refl
  copy_at sql_numeric f h =
      copied_as f sql_numeric (of_double f.value_double) refl refl refl refl refl refl refl
  copy_at sql_decimal f h =
      copied_as f sql_decimal (of_double f.value_double) refl refl refl refl refl refl refl
  copy_at sql_float f h =
      copied_as f sql_float (of_double f.value_double) refl refl refl refl refl refl refl
  copy_at sql_real f h =
      copied_as f sql_real (of_double f.value_double) refl refl refl refl refl refl refl
  copy_at sql_var_char f h =
      copied_as f sql_var_char (of_string f.value_string) refl refl refl refl refl refl refl
  copy_at sql_char f h =
      copied_as f sql_char (of_string f.value_string) refl refl refl refl refl refl refl
  copy_at sql_date_time f h = (refl, inl refl)
  copy_at sql_date f h = (refl, inl refl)
  copy_at sql_time f h = (refl, inl refl)
  copy_at sql_timestamp f h = (refl, inl refl)
  copy_at sql_w_char f h = (refl, inl refl)
  copy_at sql_w_var_char f h = (refl, inl refl)
  copy_at sql_w_long_var_char f h = (refl, inl refl)

  copy_null : (f : Field D) → Copies (record f { value_is_null = true })
  unfolding copy_field assign_null new_field as_boolean as_integer as_double as_string
  copy_null f = (
    refl,
    inr (
      record { field = new_field f.column_type; notified = false },
      refl,
      record {
        same_type = refl;
        same_boolean = refl;
        same_integer = refl;
        same_double = refl;
        same_string = refl;
      },
    ),
  )

  -- The copy of a field whose column type is known throws exactly if the field is not null and its
  -- column type is a date, a time, or a text of wide characters; otherwise the copy has the type of
  -- the field and reads as it does, a null field and all four kinds of values alike.
  pub copy_field-Copies : (f : Field D) → label f.column_type ≢ unknown → Copies f
  copy_field-Copies f h = elim (Bool-cases f.value_is_null) [
    | inl null ↦ subst (λ b. Copies (record f { value_is_null = b })) (sym null) (copy_null f)
    | inr known ↦
        subst (λ b. Copies (record f { value_is_null = b })) (sym known) (copy_at f.column_type f h)
  ]
