-- ===== src/Utility/Csv/Tests.antt =====
-- Runs of the CSV functions, and the theorems at concrete inputs.
use open_esl.Utility.Csv.{split_row, to_row}
use open_esl.Utility.Csv.Columns.{split_row-unseparated}
use open_esl.Prelude.{[], ◌∷◌, Bytes, ◌≡◌, refl}

-- "a;b"
abbrev row : Bytes
row = b'a' ∷ b';' ∷ b'b' ∷ []

to_row_runs : to_row b';' ((b'a' ∷ []) ∷ (b'b' ∷ []) ∷ []) ≡ row
unfolding to_row
to_row_runs = refl

split_row-unseparated_example : split_row b';' row ≡ (b'a' ∷ b'b' ∷ []) ∷ []
split_row-unseparated_example = split_row-unseparated b';' row
