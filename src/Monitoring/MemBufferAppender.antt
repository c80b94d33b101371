-- ===== src/Monitoring/MemBufferAppender.antt =====
-- features/common4esl/src/common4esl/monitoring/MemBufferAppender.cpp. The rows are a function on
-- their numbers, `line` is `lineStaticSize` up to its first 0 or `lineDynamicSize`, by the settings,
-- and no text has a 0. A layout is its `toString`. The counts stay below 2 ^ 64.
pub mod Log
mod Rows
mod Steps
mod Newline
mod Texts
mod Writing
pub mod Refinement
mod Tests
use open_esl.Prelude.{
  min, ℕ, zero, suc, ◌+◌, ◌-◌, ◌%◌, refl, true, false, Option, none, some, List, [], ◌∷◌, ◌++◌, ltb,
  ◌==◌, if◌then◌else◌, length, is_empty, take, Bytes,
}
use open_esl.Monitoring.Location.{Location, equal, RecordLevel, off, selected, all, is_recorded}

-- `Entry`
pub record Entry : Type 0 where
  pub location : Location
  pub line : Bytes

pub record Appender : Type 0 where
  pub max_lines : ℕ
  pub max_columns : ℕ
  pub layout : Option (Location → Bytes)
  pub record_level : RecordLevel
  pub entries : ℕ → Entry
  pub row_producer : ℕ
  pub row_consumer : ℕ
  pub columns_producer : ℕ

-- The constructor, whose rows start with the location `location`.
unfoldable pub init : ℕ → ℕ → Location → Appender
init max_lines max_columns location = record {
  max_lines = max_lines;
  max_columns = max_columns;
  layout = none;
  record_level = selected;
  entries = λ _. record { location = location; line = [] };
  row_producer = 0;
  row_consumer = 0;
  columns_producer = 0;
}

unfoldable pub set_layout : Option (Location → Bytes) → Appender → Appender
set_layout layout a = record a { layout = layout }

unfoldable pub set_record_level : RecordLevel → Appender → Appender
set_record_level level a = record a { record_level = level }

-- The row after `i`.
unfoldable pub next_row : ℕ → ℕ → ℕ
next_row max_lines i = (i + 1) % (max_lines + 1)

abbrev pub assign : ℕ → Entry → (ℕ → Entry) → ℕ → Entry
assign i x entries k = if k == i then x else entries k

-- The entry that is written, and its change.
abbrev pub current : Appender → Entry
current a = a.entries a.row_producer

abbrev pub set_current : Entry → Appender → Appender
set_current x a = record a { entries = assign a.row_producer x a.entries }

-- `entries[rowProducer].location = location`
unfoldable pub set_location : Location → Appender → Appender
set_location location a = set_current (record (current a) { location = location }) a

-- `write(ptr, size)`
unfoldable pub write_text : Bytes → Appender → Appender
write_text text a =
    let room = min (length text) (a.max_columns - a.columns_producer) in
    if a.max_columns == 0
    then record (set_current (record (current a) { line = (current a).line ++ text }) a) {
      columns_producer = a.columns_producer + length text;
    }
    else record (set_current (record (current a) { line = (current a).line ++ take room text }) a) {
      columns_producer = a.columns_producer + room;
    }

unfoldable pub newline : Appender → Appender
unfolding next_row
newline a =
    let row = next_row a.max_lines a.row_producer in
    record a {
      row_producer = row;
      row_consumer =
          if a.row_consumer == row then next_row a.max_lines a.row_consumer else a.row_consumer;
      entries = assign row (record (a.entries row) { line = [] }) a.entries;
      columns_producer = 0;
    }

-- The loop of `write`, where `line` is the text from `begin` to `iter`.
unfoldable pub write_loop : Location → Bytes → Bytes → Appender → Appender
unfolding write_text newline set_location
write_loop location line [] a = if is_empty line then a else write_text line a
write_loop location line (c ∷ rest) a = elim (c == 10) [
  | true ↦ write_loop location [] rest (set_location location (newline (write_text line a)))
  | false ↦ write_loop location (line ++ c ∷ []) rest a
]

-- `write` before its loop: the entry that is written becomes one of the location.
unfoldable pub open_location : Location → Appender → Appender
unfolding newline set_location
open_location location a =
    if equal (current a).location location
    then a
    else if ltb 0 a.columns_producer
    then set_location location (newline a)
    else set_location location a

-- `write(location, str, len)`
unfoldable pub write : Location → Bytes → Appender → Appender
unfolding open_location write_loop
write location str a =
    if is_recorded a.record_level location
    then write_loop location [] str (open_location location a)
    else a

-- The loop of `flush`, at `idx`.
unfoldable pub flush_loop : ℕ → ℕ → List Entry → Appender → List Entry
unfolding next_row
flush_loop zero idx buffer a = buffer
flush_loop (suc fuel) idx buffer a =
    let rest = flush_loop fuel (next_row a.max_lines idx) (buffer ++ a.entries idx ∷ []) a in
    if idx == a.row_producer then buffer else rest

unfoldable pub print : Option (Location → Bytes) → List Entry → Bytes
print layout [] = []
print none (x ∷ xs) = x.line ++ 10 ∷ print none xs
print (some to_string) (x ∷ xs) = to_string x.location ++ x.line ++ 10 ∷ print (some to_string) xs

-- `flush` to a stream that is not null.
unfoldable pub flush : Appender → Bytes
unfolding print flush_loop
flush a = print a.layout (flush_loop (a.max_lines + 1) a.row_consumer [] a)
