-- ===== src/Utility/Csv/Columns.antt =====
-- How many columns `CSV::splitRow` returns, and what `CSV::toRow` writes.
use open_esl.Prelude.{
  concat, ==-refl, ℕ, Bool, false, not, ◌&&◌, List, [], ◌∷◌, ◌++◌, ◌==◌, if◌then◌else◌, ◌≡◌, refl,
  ap, sym, ◌∙◌, Bytes, All, inl, inr, Bool-cases, append-nil, append_assoc,
}
use open_esl.Utility.Escape.{to_escape}
use open_esl.Utility.Csv.{
  Splitter, split_char, split_loop, split_row, double_separator, to_row_loop, to_row,
}

-- The row without the separators that no backslash precedes.
abbrev pub unseparated : ℕ → Bool → Bytes → Bytes
unseparated separator escaped [] = []
unseparated separator escaped (c ∷ cs) =
    if (c == separator) && not escaped
    then unseparated separator false cs
    else c ∷ unseparated separator ((c == b'\\') && not escaped) cs

abbrev split_result : Splitter → List Bytes
split_result s = s.columns ++ s.column ∷ []

abbrev at_column : Bytes → Bool → Splitter
at_column column escaped = record { columns = []; column = column; escape_state = escaped }

split_char-at_column :
    (separator : ℕ) (column : Bytes) (escaped : Bool) (c : ℕ)
    → split_char separator (at_column column escaped) c ≡ (
        if (c == separator) && not escaped
        then at_column column false
        else at_column (column ++ c ∷ []) ((c == b'\\') && not escaped))
unfolding split_char
split_char-at_column separator column escaped c = refl

split_loop-unseparated :
    (separator : ℕ) (column : Bytes) (escaped : Bool) (row : Bytes)
    → split_result (split_loop separator (at_column column escaped) row)
      ≡ (column ++ unseparated separator escaped row) ∷ []
unfolding split_loop
split_loop-unseparated separator column escaped [] = rw append-nil
split_loop-unseparated separator column escaped (c ∷ cs) =
    let escapes = (c == b'\\') && not escaped in
    ap (λ s. split_result (split_loop separator s cs))
      (split_char-at_column separator column escaped c)
    ∙ elim (Bool-cases ((c == separator) && not escaped)) [
      | inl e ↦ rw e (split_loop-unseparated separator column false cs)
      | inr e ↦ rw e (
          split_loop-unseparated separator (column ++ c ∷ []) escapes cs
          ∙ ap (λ b. b ∷ []) (append_assoc column (c ∷ []) (unseparated separator escapes cs)))
    ]

-- `splitRow` returns one column whatever the row is: the whole row without the separators that are
-- not escaped by a backslash.
pub split_row-unseparated :
    (separator : ℕ) (row : Bytes) → split_row separator row ≡ unseparated separator false row ∷ []
unfolding split_row
split_row-unseparated separator row = split_loop-unseparated separator [] false row

-- The columns with their separators doubled, each behind a separator.
abbrev tails : ℕ → List Bytes → Bytes
tails separator [] = []
tails separator (column ∷ columns) =
    separator ∷ (to_escape column (double_separator separator) ++ tails separator columns)

to_row_loop-tails :
    (separator : ℕ) (row : Bytes) (columns : List Bytes)
    → to_row_loop separator false row columns ≡ row ++ tails separator columns
unfolding to_row_loop
to_row_loop-tails separator row [] = sym (append-nil row)
to_row_loop-tails separator row (column ∷ columns) =
    let escaped = to_escape column (double_separator separator) in
    to_row_loop-tails separator ((row ++ separator ∷ []) ++ escaped) columns
    ∙ append_assoc (row ++ separator ∷ []) escaped (tails separator columns)
    ∙ append_assoc row (separator ∷ []) (escaped ++ tails separator columns)

-- No character of the column is the separator or a backslash.
abbrev pub IsPlain : ℕ → Bytes → Type 0
IsPlain separator = All (λ c. ((c == separator) ≡ false) × ((c == b'\\') ≡ false))

to_escape-IsPlain :
    (separator : ℕ) (column : Bytes)
    → IsPlain separator column
    → to_escape column (double_separator separator) ≡ column
unfolding to_escape double_separator
to_escape-IsPlain separator [] h = refl
to_escape-IsPlain separator (c ∷ cs) h = rw (h.0.0, to_escape-IsPlain separator cs h.1)

unseparated-IsPlain :
    (separator : ℕ) (column rest : Bytes)
    → IsPlain separator column
    → unseparated separator false (column ++ rest) ≡ column ++ unseparated separator false rest
unseparated-IsPlain separator [] rest h = refl
unseparated-IsPlain separator (c ∷ cs) rest h =
    rw (h.0.0, h.0.1, unseparated-IsPlain separator cs rest h.1)

unseparated-tails :
    (separator : ℕ) (columns : List Bytes)
    → All (IsPlain separator) columns
    → unseparated separator false (tails separator columns) ≡ concat columns
unseparated-tails separator [] h = refl
unseparated-tails separator (column ∷ columns) h = rw (
  ==-refl separator,
  to_escape-IsPlain separator column h.0,
  unseparated-IsPlain separator column (tails separator columns) h.0,
  unseparated-tails separator columns h.1,
)

-- A row made of columns with no separator and no backslash in them is split into one column again,
-- which holds all of them without a separator.
split_row-to_row :
    (separator : ℕ) (column : Bytes) (columns : List Bytes)
    → All (IsPlain separator) (column ∷ columns)
    → split_row separator (to_row separator (column ∷ columns)) ≡ concat (column ∷ columns) ∷ []
unfolding to_row to_row_loop
split_row-to_row separator column columns h =
    ap (split_row separator)
      (to_row_loop-tails separator (to_escape column (double_separator separator)) columns)
    ∙ split_row-unseparated separator
        (to_escape column (double_separator separator) ++ tails separator columns)
    ∙ rw (
      to_escape-IsPlain separator column h.0,
      unseparated-IsPlain separator column (tails separator columns) h.0,
      unseparated-tails separator columns h.1,
    )
