-- ===== src/Monitoring/OstreamAppender/Tests.antt =====
-- Runs of the stream appender, and the theorem at a concrete input.
use open_esl.Prelude.{◌≡◌, refl, true, some, [], ◌∷◌}
use open_esl.Monitoring.Location.{Location, info, warn, all, equal, is_recorded, level_eq}
use open_esl.Monitoring.OstreamAppender.{
  Settings, put, flushed, Appender, init, get_ostream, emit, open_location, layout_text, start_line,
  write_loop, write,
}
use open_esl.Monitoring.OstreamAppender.Characters.{write_chars, write-chars}
use open_esl.Monitoring.OstreamAppender.Opening.{started}

abbrev settings : Settings
settings = record {
  trace_stream = 1;
  debug_stream = 1;
  info_stream = 1;
  warn_stream = 2;
  error_stream = 2;
}

abbrev here : Location
here = record {
  timestamp = 1;
  level = info;
  object = 0;
  type_name = 2;
  function = 3;
  file = 4;
  line = 10;
  thread_id = 1;
  enabled = true;
}

abbrev warning : Location
warning = record here { level = warn; line = 11 }

abbrev fresh : Appender
fresh = record (init settings here) { record_level = all; layout = some (λ l. l.line ∷ []) }

-- The open line on the first stream is ended and flushed before the other stream is written to.
ends_line_elsewhere :
    (write warning (66 ∷ []) (write here (65 ∷ []) fresh)).output
    ≡ put 1 10 ∷ put 1 65 ∷ put 1 10 ∷ flushed 1 ∷ put 2 11 ∷ put 2 66 ∷ []
unfolding write init get_ostream emit open_location layout_text start_line write_loop equal
    is_recorded level_eq
ends_line_elsewhere = refl

-- The line of `here` is open when the warning is written.
write-chars_example :
    write warning (65 ∷ 10 ∷ 66 ∷ []) (write here (65 ∷ []) fresh)
    ≡ write_chars warning 2 (65 ∷ 10 ∷ 66 ∷ []) (started warning (write here (65 ∷ []) fresh))
unfolding write init get_ostream emit open_location layout_text start_line write_loop equal
    is_recorded level_eq
write-chars_example = write-chars warning (65 ∷ 10 ∷ 66 ∷ []) (write here (65 ∷ []) fresh) refl
