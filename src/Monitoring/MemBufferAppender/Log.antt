-- ===== src/Monitoring/MemBufferAppender/Log.antt =====
-- What the appender promises: the last lines that were written, and the line that is being written.
use open_esl.Prelude.{
  ℕ, ◌-◌, List, [], ◌∷◌, ◌++◌, ◌==◌, if◌then◌else◌, length, is_empty, take, drop, Bytes,
}
use open_esl.Monitoring.Location.{Location, equal, RecordLevel, is_recorded}
use open_esl.Monitoring.MemBufferAppender.{Entry}

pub record Log : Type 0 where
  pub lines : List Entry
  pub current : Entry

-- The last `n`.
abbrev pub keep : ℕ → List Entry → List Entry
keep n xs = drop (length xs - n) xs

-- At most `n` columns of a text, if there is a limit.
unfoldable pub clip : ℕ → Bytes → Bytes
clip max_columns text = if max_columns == 0 then text else take max_columns text

-- Characters at the end of the line that is being written.
unfoldable pub add : ℕ → Bytes → Log → Log
unfolding clip
add max_columns text log = record log {
  current = record log.current { line = clip max_columns (log.current.line ++ text) };
}

-- The line is complete; the next one is of the location.
unfoldable pub end_line : ℕ → Location → Log → Log
end_line max_lines location log = record {
  lines = keep max_lines (log.lines ++ log.current ∷ []);
  current = record { location = location; line = [] };
}

unfoldable pub log_text : ℕ → ℕ → Location → Bytes → Log → Log
unfolding add end_line
log_text max_lines max_columns location [] log = log
log_text max_lines max_columns location (c ∷ text) log =
    log_text max_lines max_columns location text
      (if c == 10 then end_line max_lines location log else add max_columns (c ∷ []) log)

-- A text of another location starts a line of its own.
unfoldable pub log_location : ℕ → Location → Log → Log
unfolding end_line
log_location max_lines location log =
    if equal log.current.location location
    then log
    else if is_empty log.current.line
    then record log { current = record log.current { location = location } }
    else end_line max_lines location log

-- A text of a location, character by character.
unfoldable pub log_write : ℕ → ℕ → RecordLevel → Location → Bytes → Log → Log
unfolding log_location log_text
log_write max_lines max_columns level location text log =
    if is_recorded level location
    then log_text max_lines max_columns location text (log_location max_lines location log)
    else log
