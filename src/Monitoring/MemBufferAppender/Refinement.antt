-- ===== src/Monitoring/MemBufferAppender/Refinement.antt =====
-- The appender implements the log, over all sequences of calls of `write`.
use open_esl.Prelude.{
  Bool-cases, inl, inr, if_false, if◌then◌else◌, ℕ, ◌+◌, ◌-◌, ◌≤◌, ◌<◌, ◌≡◌, refl, sym, ap, ap₂,
  ◌∙◌, true, some, List, [], ◌∷◌, ◌++◌, append-nil, arith, if_true, length, drop, length-append,
  Bytes,
}
use open_esl.Monitoring.Location.{all, Location, equal, is_recorded}
use open_esl.Monitoring.MemBufferAppender.{
  Entry, Appender, init, write, flush_loop, print, flush, set_layout, set_record_level,
}
use open_esl.Monitoring.MemBufferAppender.Log.{
  Log, keep, end_line, log_text, log_location, log_write,
}
use open_esl.Monitoring.MemBufferAppender.Rows.{row_at, gather, flush_loop-gather}
use open_esl.Monitoring.MemBufferAppender.Writing.{Settings, Follows, write-Follows}

-- Calls of `write`, one after the other.
abbrev pub writes : List (Location × Bytes) → Appender → Appender
writes [] a = a
writes (w ∷ rest) a = writes rest (write w.0 w.1 a)

abbrev pub log_writes : Settings → List (Location × Bytes) → Log → Log
log_writes s [] log = log
log_writes s (w ∷ rest) log =
    log_writes s rest (log_write s.max_lines s.max_columns s.record_level w.0 w.1 log)

writes-Follows :
    (s : Settings) (calls : List (Location × Bytes)) (a : Appender) (log : Log)
    → Follows s a log
    → Follows s (writes calls a) (log_writes s calls log)
writes-Follows s [] a log v = v
writes-Follows s (w ∷ rest) a log v =
    writes-Follows s rest (write w.0 w.1 a)
      (log_write s.max_lines s.max_columns s.record_level w.0 w.1 log)
      (write-Follows s a log w.0 w.1 v)

flush-Follows :
    (s : Settings) (a : Appender) (log : Log) → Follows s a log → flush a ≡ print s.layout log.lines
unfolding flush
flush-Follows s a log v =
    let w = v.implements in
    let size : 0 + w.distance ≡ w.distance = omega arith in
    ap₂ print (ap (λ (t : Settings). t.layout) v.same) (
      ap (λ i. flush_loop (a.max_lines + 1) i [] a) (ground (arith, w.consumer_in_ring))
      ∙ flush_loop-gather a (a.max_lines + 1) w.distance 0 w.consumer_in_ring
          (omega (arith, w.in_ring)) (omega (arith, w.in_ring))
          (w.producer ∙ ap (row_at a.max_lines a.row_consumer) (sym size))
      ∙ ap (gather a.max_lines a.entries a.row_consumer) size
      ∙ sym w.lines)

-- The log of an appender that has just been constructed.
abbrev pub empty : Location → Log
empty location = record { lines = []; current = record { location = location; line = [] } }

-- An appender with the settings, to which nothing has been written.
abbrev pub start : Settings → Location → Appender
start s location =
    set_record_level s.record_level (set_layout s.layout (init s.max_lines s.max_columns location))

start-Follows : (s : Settings) (location : Location) → Follows s (start s location) (empty location)
unfolding init set_layout set_record_level
start-Follows s location = record {
  implements = record {
    distance = 0;
    in_ring = omega arith;
    consumer_in_ring = omega arith;
    producer = ground arith;
    lines = refl;
    current = refl;
    columns = refl;
    clipped = ground arith;
  };
  same = refl;
}

-- After any calls of `write`, `flush` writes what the log of these calls has: the last `maxLines`
-- complete lines in their order, each with its location and cut to `maxColumns` characters if that is
-- not 0, where a text of another location than the line that is being written completes that line.
pub flush-writes :
    (s : Settings) (location : Location) (calls : List (Location × Bytes))
    → flush (writes calls (start s location))
      ≡ print s.layout (log_writes s calls (empty location)).lines
flush-writes s location calls =
    flush-Follows s (writes calls (start s location)) (log_writes s calls (empty location))
      (writes-Follows s calls (start s location) (empty location) (start-Follows s location))

keep-short : (n : ℕ) (xs : List Entry) → length xs ≤ n → keep n xs ≡ xs
keep-short n xs h =
    let nothing : length xs - n ≡ 0 = omega (arith, h) in ap (λ m. drop m xs) nothing

-- The location that a line break of `location` is shown with, in an empty line of `l`.
abbrev pub shown : Location → Location → Location
shown l location = if equal l location then l else location

log_write-newline :
    (n columns : ℕ) (location l : Location) (xs : List Entry)
    → length xs < n
    → log_write n columns all location
        (10 ∷ [])
        (record { lines = xs; current = record { location = l; line = [] } })
      ≡ record {
        lines = xs ++ (record { location = shown l location; line = [] }) ∷ [];
        current = record { location = location; line = [] };
      }
unfolding log_write log_text log_location end_line is_recorded
log_write-newline n columns location l xs k =
    let broken : Location → Log = λ m. record {
      lines = xs ++ (record { location = m; line = [] }) ∷ [];
      current = record { location = location; line = [] };
    } in
    let ended : (m : Location)
        → log_text n columns location (10 ∷ [])
            (record { lines = xs; current = record { location = m; line = [] } })
          ≡ broken m =
      λ m.
        ap (λ ys. record { lines = ys; current = record { location = location; line = [] } })
          (keep-short n (xs ++ (record { location = m; line = [] }) ∷ [])
            (omega (arith, k, length-append xs ((record { location = m; line = [] }) ∷ [])))) in
    elim (Bool-cases (equal l location)) [
      | inl e ↦
          ap (log_text n columns location (10 ∷ [])) (if_true (equal l location) _ _ e)
          ∙ ended l
          ∙ ap broken (sym (if_true (equal l location) l location e))
      | inr e ↦
          ap (log_text n columns location (10 ∷ [])) (if_false (equal l location) _ _ e)
          ∙ ended location
          ∙ ap broken (sym (if_false (equal l location) l location e))
    ]

-- Of two line breaks that are all that is written to a new appender, whose rows hold the location
-- `initial`, where everything is recorded and there are rows for both: if `equal` takes their
-- locations for the same, though their lines in the source and their times may differ, the second is
-- shown with the location of the first. The first is shown with its own location, or with `initial`
-- if `equal` takes that for the same.
pub flush-stale_location :
    (n columns : ℕ) (to_string : Location → Bytes) (initial first second : Location)
    → equal first second ≡ true
    → flush (
        writes ((first, 10 ∷ []) ∷ (second, 10 ∷ []) ∷ []) (
          start
            (record {
              max_lines = n + 2;
              max_columns = columns;
              layout = some to_string;
              record_level = all;
            })
            initial))
      ≡ to_string (shown initial first) ++ 10 ∷ (to_string first ++ 10 ∷ [])
unfolding print
flush-stale_location n columns to_string initial first second h =
    let s : Settings = record {
      max_lines = n + 2;
      max_columns = columns;
      layout = some to_string;
      record_level = all;
    } in
    let line : Location → Entry = λ l. record { location = l; line = [] } in
    flush-writes s initial ((first, 10 ∷ []) ∷ (second, 10 ∷ []) ∷ [])
    ∙ ap (λ (l : Log). print (some to_string) l.lines)
        (ap (log_write (n + 2) columns all second (10 ∷ []))
            (log_write-newline (n + 2) columns first initial [] (omega arith))
          ∙ log_write-newline (n + 2) columns second first (line (shown initial first) ∷ [])
              (omega arith))
    ∙ ap₂ (λ xs ys. xs ++ 10 ∷ (ys ++ 10 ∷ [])) (append-nil (to_string (shown initial first)))
        (append-nil (to_string (shown first second))
          ∙ ap to_string (if_true (equal first second) first second h))
