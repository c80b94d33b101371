-- ===== src/Database/Column/Buffer.antt =====
-- How large the buffer of a column can be.
use open_esl.Prelude.{max, ℕ, ◌-◌, ◌^◌, ◌≤◌, ◌<◌, ◌≡◌, ◌⊎◌, Bool, arith, Bytes}
use open_esl.Database.Conversion.{ColumnType}
use open_esl.Database.Column.{new_column, get_buffer_size}

-- The buffer of a column that has been constructed never exceeds a maximum that is not 0; it does
-- not exceed a maximum that was asked for either, unless the default size is larger than that; and
-- without a maximum it has room for the longest value, if that is not the largest `size_t`.
pub get_buffer_size_bounded :
    (name : Bytes) (column_type : ColumnType) (nullable : Bool)
    (default_size maximum_size digits characters display : ℕ)
    → let c =
        new_column name column_type nullable default_size maximum_size digits characters display in
      ((c.maximum_buffer_size ≡ 0) ⊎ (get_buffer_size c ≤ c.maximum_buffer_size))
      × ((maximum_size ≡ 0) ⊎ ((maximum_size < default_size) ⊎ (get_buffer_size c ≤ maximum_size)))
      × ((0 < maximum_size)
          ⊎ ((2 ^ 64 - 1 ≤ max characters display)
              ⊎ ((characters ≤ get_buffer_size c) × (display ≤ get_buffer_size c))))
unfolding new_column get_buffer_size
get_buffer_size_bounded name column_type nullable default_size maximum_size digits characters
      display =
    (ground arith, ground arith, ground arith)
