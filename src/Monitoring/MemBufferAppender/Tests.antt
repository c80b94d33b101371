-- ===== src/Monitoring/MemBufferAppender/Tests.antt =====
-- Runs of the appender, and the theorems at concrete inputs.
use open_esl.Prelude.{◌≡◌, refl, true, some, List, [], ◌∷◌, Bytes}
use open_esl.Monitoring.Location.{silent, level_eq, all, trace, info, Location, equal, is_recorded}
use open_esl.Monitoring.MemBufferAppender.{
  init, next_row, set_location, write_text, newline, write_loop, open_location, write, flush_loop,
  print, flush, set_layout, set_record_level,
}
use open_esl.Monitoring.MemBufferAppender.Writing.{Settings}
use open_esl.Monitoring.MemBufferAppender.Refinement.{
  writes, log_writes, empty, start, flush-writes, flush-stale_location,
}

abbrev here : Location
here = record {
  timestamp = 1;
  level = info;
  object = 0;
  type_name = 2;
  function = 3;
  file = 4;
  line = 10;
  thread_id = 1;
  enabled = true;
}

abbrev there : Location
there = record here { timestamp = 2; line = 20 }

abbrev elsewhere : Location
elsewhere = record here { level = trace }

-- The line numbers in front of each line, two lines of three columns.
abbrev two_lines : Settings
two_lines = record {
  max_lines = 2;
  max_columns = 3;
  layout = some (λ l. l.line ∷ []);
  record_level = all;
}

abbrev calls : List (Location × Bytes)
calls =
    (here, 65 ∷ 10 ∷ 66 ∷ [])
    ∷ (elsewhere, 67 ∷ 67 ∷ [])
    ∷ (elsewhere, 68 ∷ 69 ∷ 10 ∷ 70 ∷ 10 ∷ [])
    ∷ []

-- The second line was completed by another location, the third is cut; the first is overwritten.
keeps_two_lines :
    flush (writes calls (start two_lines here)) ≡ 10 ∷ 67 ∷ 67 ∷ 68 ∷ 10 ∷ 10 ∷ 70 ∷ 10 ∷ []
unfolding flush write init set_layout set_record_level equal is_recorded open_location write_loop
    write_text newline set_location next_row flush_loop print
keeps_two_lines = refl

flush-writes_example :
    flush (writes calls (start two_lines here))
    ≡ print two_lines.layout (log_writes two_lines calls (empty here)).lines
flush-writes_example = flush-writes two_lines here calls

-- The rows start with a location like none of the program.
abbrev default_location : Location
default_location = record {
  timestamp = 0;
  level = silent;
  object = 0;
  type_name = 0;
  function = 0;
  file = 0;
  line = 0;
  thread_id = 1;
  enabled = true;
}

flush-stale_location_example :
    flush (
      writes ((here, 10 ∷ []) ∷ (there, 10 ∷ []) ∷ []) (
        start
          (record {
            max_lines = 2;
            max_columns = 3;
            layout = some (λ (l : Location). l.line ∷ []);
            record_level = all;
          })
          default_location))
    ≡ 10 ∷ 10 ∷ 10 ∷ 10 ∷ []
unfolding equal level_eq
flush-stale_location_example =
    flush-stale_location 0 3 (λ l. l.line ∷ []) default_location here there refl
