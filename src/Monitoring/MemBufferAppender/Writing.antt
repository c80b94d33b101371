-- ===== src/Monitoring/MemBufferAppender/Writing.antt =====
-- Each step of `write` does to the log what the log promises.
use open_esl.Prelude.{
  ℕ, ◌≡◌, refl, sym, ap, subst, ◌∙◌, Bool, true, false, not, Option, [], ◌∷◌, ◌++◌, arith, ltb,
  ◌==◌, if◌then◌else◌, if_cases, length, is_empty, Bytes,
}
use open_esl.Monitoring.Location.{Location, equal, RecordLevel, is_recorded}
use open_esl.Monitoring.MemBufferAppender.{
  Entry, Appender, current, set_location, write_text, newline, write_loop, open_location, write,
}
use open_esl.Monitoring.MemBufferAppender.Log.{
  Log, add, end_line, log_text, log_location, log_write,
}
use open_esl.Monitoring.MemBufferAppender.Steps.{
  Implements, set_location-Implements, write_text-Implements,
}
use open_esl.Monitoring.MemBufferAppender.Newline.{newline-Implements}
use open_esl.Monitoring.MemBufferAppender.Texts.{add-add, add_nothing}

-- What no call of `write` changes.
pub record Settings : Type 0 where
  pub max_lines : ℕ
  pub max_columns : ℕ
  pub layout : Option (Location → Bytes)
  pub record_level : RecordLevel

abbrev pub settings : Appender → Settings
settings a = record {
  max_lines = a.max_lines;
  max_columns = a.max_columns;
  layout = a.layout;
  record_level = a.record_level;
}

-- The appender has the settings and the lines.
pub record Follows (s : Settings) (a : Appender) (log : Log) : Type 0 where
  pub implements : Implements a log
  pub same : settings a ≡ s

write_text-settings : (text : Bytes) (a : Appender) → settings (write_text text a) ≡ settings a
unfolding write_text
write_text-settings text a =
    if_cases (λ b. settings b ≡ settings a) (a.max_columns == 0) _ _ (λ _. refl) (λ _. refl)

write_text-Follows :
    (s : Settings) (a : Appender) (log : Log) (text : Bytes)
    → Follows s a log
    → Follows s (write_text text a) (add s.max_columns text log)
write_text-Follows s a log text v =
    subst (λ t. Follows t (write_text text a) (add t.max_columns text log)) v.same
      (record {
        implements = write_text-Implements a log v.implements text;
        same = write_text-settings text a;
      })

newline-Follows :
    (s : Settings) (a : Appender) (log : Log) (location : Location)
    → Follows s a log
    → Follows s (set_location location (newline a)) (end_line s.max_lines location log)
unfolding set_location newline
newline-Follows s a log location v =
    subst (λ t. Follows t (set_location location (newline a)) (end_line t.max_lines location log))
      v.same (record { implements = newline-Implements a log location v.implements; same = refl })

abbrev Continues : Settings → Location → Bytes → Bytes → Appender → Log → Type 0
Continues s location line text a log =
    Follows s (write_loop location line text a)
      (log_text s.max_lines s.max_columns location text (add s.max_columns line log))

-- One character, which ends the line or not, for a text whose rest is fine.
write_byte-Follows :
    (s : Settings) (location : Location) (c : ℕ) (line text : Bytes) (a : Appender) (log : Log)
    → ((more : Bytes) (b : Appender) (l : Log) → Follows s b l → Continues s location more text b l)
    → Follows s a log
    → (ends : Bool)
    → Follows s
        (elim ends [
          | true ↦ write_loop location [] text (set_location location (newline (write_text line a)))
          | false ↦ write_loop location (line ++ c ∷ []) text a
        ])
        (log_text s.max_lines s.max_columns location text (
          if ends
          then end_line s.max_lines location (add s.max_columns line log)
          else add s.max_columns (c ∷ []) (add s.max_columns line log)))
write_byte-Follows s location c line text a log rest v true =
    let ended = set_location location (newline (write_text line a)) in
    let after = end_line s.max_lines location (add s.max_columns line log) in
    let w : Follows s ended after =
      newline-Follows s (write_text line a) (add s.max_columns line log) location
        (write_text-Follows s a log line v) in
    subst
      (λ l.
        Follows s (write_loop location [] text ended)
          (log_text s.max_lines s.max_columns location text l))
      (subst (λ t. add t.max_columns [] after ≡ after) w.same
        (add_nothing ended after w.implements))
      (rest [] ended after w)
write_byte-Follows s location c line text a log rest v false =
    subst
      (λ l.
        Follows s (write_loop location (line ++ c ∷ []) text a)
          (log_text s.max_lines s.max_columns location text l))
      (sym (add-add s.max_columns line (c ∷ []) log)) (rest (line ++ c ∷ []) a log v)

write_loop-Follows :
    (s : Settings) (location : Location) (line text : Bytes) (a : Appender) (log : Log)
    → Follows s a log
    → Continues s location line text a log
unfolding write_loop log_text
write_loop-Follows s location [] [] a log v =
    subst (Follows s a)
      (sym (subst (λ t. add t.max_columns [] log ≡ log) v.same (add_nothing a log v.implements))) v
write_loop-Follows s location (b ∷ line) [] a log v = write_text-Follows s a log (b ∷ line) v
write_loop-Follows s location line (c ∷ text) a log v =
    write_byte-Follows s location c line text a log
      (λ more b l w. write_loop-Follows s location more text b l w) v (c == 10)

set_location-Follows :
    (s : Settings) (a : Appender) (log : Log) (location : Location)
    → Follows s a log
    → Follows s
        (set_location location a)
        (record log { current = record log.current { location = location } })
set_location-Follows s a log location v = record {
  implements = set_location-Implements a log v.implements location;
  same = unfold set_location in v.same;
}

is_empty-length : (line : Bytes) → not (ltb 0 (length line)) ≡ is_empty line
is_empty-length [] = refl
is_empty-length (c ∷ line) = ground arith

open_location-branch :
    (s : Settings) (a : Appender) (log : Log) (location : Location)
    → Follows s a log
    → (known filled : Bool)
    → Follows s
        (if known
          then a
          else if filled
          then set_location location (newline a)
          else set_location location a)
        (if known
          then log
          else if not filled
          then record log { current = record log.current { location = location } }
          else end_line s.max_lines location log)
open_location-branch s a log location v true filled = v
open_location-branch s a log location v false true = newline-Follows s a log location v
open_location-branch s a log location v false false = set_location-Follows s a log location v

-- `columnsProducer > 0` tells whether the current line has characters.
open_location-Follows :
    (s : Settings) (a : Appender) (log : Log) (location : Location)
    → Follows s a log
    → Follows s (open_location location a) (log_location s.max_lines location log)
unfolding open_location log_location
open_location-Follows s a log location v =
    let known : Bool = equal (current a).location location in
    let filled : Bool = ltb 0 a.columns_producer in
    let same_known : known ≡ equal log.current.location location =
      ap (λ (x : Entry). equal x.location location) (sym v.implements.current) in
    let same_filled : not filled ≡ is_empty log.current.line =
      ap (λ n. not (ltb 0 n)) v.implements.columns ∙ is_empty-length log.current.line in
    let changed : Log = record log { current = record log.current { location = location } } in
    let ended : Log = end_line s.max_lines location log in
    subst
      (λ b.
        Follows s (open_location location a)
          (if b then log else if is_empty log.current.line then changed else ended))
      same_known
      (subst
        (λ b.
          Follows s (open_location location a)
            (if known then log else if b then changed else ended))
        same_filled (open_location-branch s a log location v known filled))

pub write-Follows :
    (s : Settings) (a : Appender) (log : Log) (location : Location) (text : Bytes)
    → Follows s a log
    → Follows s
        (write location text a)
        (log_write s.max_lines s.max_columns s.record_level location text log)
unfolding write log_write
write-Follows s a log location text v =
    subst
      (λ level. Follows s (write location text a) (
        if is_recorded level location
        then log_text s.max_lines s.max_columns location text
            (log_location s.max_lines location log)
        else log))
      (ap (λ (t : Settings). t.record_level) v.same) (go (is_recorded a.record_level location))
  where
    opened : Follows s (open_location location a) (log_location s.max_lines location log)
    opened = open_location-Follows s a log location v

    go :
        (recorded : Bool)
        → Follows s
            (if recorded then write_loop location [] text (open_location location a) else a)
            (if recorded
              then log_text s.max_lines s.max_columns location text
                  (log_location s.max_lines location log)
              else log)
    go false = v
    go true =
        subst
          (λ l.
            Follows s (write_loop location [] text (open_location location a))
              (log_text s.max_lines s.max_columns location text l))
          (subst
            (λ t.
              add t.max_columns [] (log_location s.max_lines location log)
              ≡ log_location s.max_lines location log)
            opened.same
            (add_nothing (open_location location a) (log_location s.max_lines location log)
              opened.implements))
          (write_loop-Follows s location [] text (open_location location a)
            (log_location s.max_lines location log) opened)
