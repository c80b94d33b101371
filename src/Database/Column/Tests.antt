-- ===== src/Database/Column/Tests.antt =====
-- The columns on concrete inputs.
use open_esl.Prelude.{ℕ, max, ℕ, ◌-◌, ◌^◌, ◌≤◌, ◌<◌, ◌≡◌, ◌⊎◌, true, [], ◌∷◌}
use open_esl.Database.Conversion.{sql_var_char}
use open_esl.Database.Column.{Column, new_column, get_buffer_size}
use open_esl.Database.Column.Buffer.{get_buffer_size_bounded}

abbrev maximum : ℕ
maximum = 50

abbrev column : Column
column = new_column (97 ∷ []) sql_var_char true 100 maximum 0 2000 10

get_buffer_size_bounded_example :
    ((column.maximum_buffer_size ≡ 0) ⊎ (get_buffer_size column ≤ column.maximum_buffer_size))
    × ((maximum ≡ 0) ⊎ ((maximum < 100) ⊎ (get_buffer_size column ≤ maximum)))
    × ((0 < maximum)
        ⊎ ((2 ^ 64 - 1 ≤ max 2000 10)
            ⊎ ((2000 ≤ get_buffer_size column) × (10 ≤ get_buffer_size column))))
get_buffer_size_bounded_example =
    get_buffer_size_bounded (97 ∷ []) sql_var_char true 100 maximum 0 2000 10
