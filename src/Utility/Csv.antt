-- ===== src/Utility/Csv.antt =====
-- features/common4esl/src/esl/utility/CSV.cpp.
pub mod Columns
mod Tests
use open_esl.Prelude.{
  ℕ, ◌+◌, Bool, true, false, not, ◌&&◌, List, [], ◌∷◌, ◌++◌, ◌==◌, if◌then◌else◌, Bytes,
}
use open_esl.Utility.Escape.{to_escape}

-- The variables of the loop of `CSV::splitRow`.
pub record Splitter : Type 0 where
  pub columns : List Bytes
  pub column : Bytes
  pub escape_state : Bool

-- One round: at a separator the column is pushed and `columns.clear()` is called.
unfoldable pub split_char : ℕ → Splitter → ℕ → Splitter
split_char separator s c =
    if (c == separator) && not s.escape_state
    then record s { columns = []; escape_state = false }
    else record s { column = s.column ++ c ∷ []; escape_state = (c == b'\\') && not s.escape_state }

unfoldable pub split_loop : ℕ → Splitter → Bytes → Splitter
unfolding split_char
split_loop separator s [] = s
split_loop separator s (c ∷ cs) = split_loop separator (split_char separator s c) cs

unfoldable pub split_row : ℕ → Bytes → List Bytes
unfolding split_loop
split_row separator row =
    let s = split_loop separator (record { columns = []; column = []; escape_state = false }) row in
    s.columns ++ s.column ∷ []

-- The callback that `CSV::toRow` gives to `String::toEscape`.
unfoldable pub double_separator : ℕ → ℕ → Bytes
double_separator separator c = (if c == separator then separator ∷ [] else []) ++ c ∷ []

unfoldable pub to_row_loop : ℕ → Bool → Bytes → List Bytes → Bytes
unfolding double_separator to_escape
to_row_loop separator is_first row [] = row
to_row_loop separator is_first row (column ∷ columns) =
    to_row_loop separator false
      ((if is_first then row else row ++ separator ∷ [])
        ++ to_escape column (double_separator separator))
      columns

unfoldable pub to_row : ℕ → List Bytes → Bytes
unfolding to_row_loop
to_row separator columns = to_row_loop separator true [] columns
