-- ===== src/Monitoring/OstreamAppender.antt =====
-- features/common4esl/src/common4esl/monitoring/OStreamAppender.cpp. A stream is a number, and
-- `output` is what all streams got, in order. A layout is its `toString`.
pub mod Opening
pub mod Characters
mod Tests
use open_esl.Prelude.{
  ℕ, ◌+◌, refl, ap, Bool, true, false, Option, none, some, List, [], ◌∷◌, ◌++◌, map, ◌==◌,
  if◌then◌else◌, Bytes,
}
use open_esl.Monitoring.Location.{
  Level, trace, debug, info, warn, error, silent, Location, equal, RecordLevel, selected,
  is_recorded,
}

-- `OStreamAppender::Settings`: the stream of each level.
pub record Settings : Type 0 where
  pub trace_stream : ℕ
  pub debug_stream : ℕ
  pub info_stream : ℕ
  pub warn_stream : ℕ
  pub error_stream : ℕ

-- A character that is written to a stream, or a call of its `flush`.
pub data Out : Type 0 where
  put : ℕ → ℕ → Out
  flushed : ℕ → Out

pub record Appender : Type 0 where
  pub settings : Settings
  pub layout : Option (Location → Bytes)
  pub record_level : RecordLevel
  pub is_first_character_in_line : Bool
  pub last_location : Location
  pub output : List Out

unfoldable pub init : Settings → Location → Appender
init settings location = record {
  settings = settings;
  layout = none;
  record_level = selected;
  is_first_character_in_line = true;
  last_location = location;
  output = [];
}

unfoldable pub get_ostream : Settings → Level → ℕ
get_ostream s trace = s.trace_stream
get_ostream s debug = s.debug_stream
get_ostream s info = s.info_stream
get_ostream s warn = s.warn_stream
get_ostream s error = s.error_stream
get_ostream s silent = s.error_stream

-- `oStream << text`
unfoldable pub emit : ℕ → Bytes → Appender → Appender
emit stream text a = record a { output = a.output ++ map (put stream) text }

unfoldable pub flush : Appender → Appender
unfolding get_ostream is_recorded
flush a =
    if is_recorded a.record_level a.last_location
    then record a {
      output = a.output ++ flushed (get_ostream a.settings a.last_location.level) ∷ [];
    }
    else a

-- `write` before its loop.
unfoldable pub open_location : Location → Appender → Appender
unfolding get_ostream emit
open_location location a =
    let last = get_ostream a.settings a.last_location.level in
    let ended = record (emit last (10 ∷ []) a) { is_first_character_in_line = true } in
    let ended_elsewhere = record ended { output = ended.output ++ flushed last ∷ [] } in
    if equal a.last_location location
    then a
    else if a.is_first_character_in_line
    then record a { last_location = location }
    else if last == get_ostream a.settings location.level
    then record ended { last_location = location }
    else record ended_elsewhere { last_location = location }

unfoldable pub layout_text : Option (Location → Bytes) → Location → Bytes
layout_text none location = []
layout_text (some to_string) location = to_string location

-- The first statement of the loop of `write`.
unfoldable pub start_line : Location → ℕ → Appender → Appender
unfolding emit layout_text
start_line location stream a =
    if a.is_first_character_in_line
    then record (emit stream (layout_text a.layout location) a) {
      is_first_character_in_line = false;
    }
    else a

-- The loop of `write`, where `line` is the text from `begin` to `iter`, and the statement behind it.
unfoldable pub write_loop : Location → ℕ → Bytes → Bytes → Appender → Appender
unfolding start_line emit
write_loop location stream line [] a = emit stream line a
write_loop location stream line (c ∷ rest) a = elim (c == 10) [
  | true ↦
      write_loop location stream [] rest
        (record (emit stream (line ++ 10 ∷ []) (start_line location stream a)) {
          is_first_character_in_line = true;
        })
  | false ↦ write_loop location stream (line ++ c ∷ []) rest (start_line location stream a)
]

unfoldable pub write : Location → Bytes → Appender → Appender
unfolding open_location write_loop get_ostream
write location str a =
    if is_recorded a.record_level location
    then write_loop location (get_ostream a.settings location.level) [] str
        (open_location location a)
    else a
