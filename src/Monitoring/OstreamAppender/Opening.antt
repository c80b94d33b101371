-- ===== src/Monitoring/OstreamAppender/Opening.antt =====
-- What `write` of the stream appender does before its loop.
use open_esl.Prelude.{
  if◌then◌else◌, ℕ, ◌≡◌, refl, sym, ap, ap₂, ◌∙◌, Bool, true, false, List, [], ◌∷◌, ◌++◌,
  append-nil, append_assoc, ◌==◌, if_cases, if_true, if_false,
}
use open_esl.Monitoring.Location.{
  Level, trace, debug, info, warn, error, silent, level_eq, equal, Location,
}
use open_esl.Monitoring.OstreamAppender.{
  Settings, flushed, Out, put, Appender, get_ostream, emit, open_location,
}

abbrev pub stream_of : Settings → Level → ℕ
stream_of s level =
    if level_eq level trace
    then s.trace_stream
    else if level_eq level debug
    then s.debug_stream
    else if level_eq level info
    then s.info_stream
    else if level_eq level warn
    then s.warn_stream
    else s.error_stream

pub get_ostream-stream_of : (s : Settings) (level : Level) → get_ostream s level ≡ stream_of s level
unfolding get_ostream level_eq
get_ostream-stream_of s trace = refl
get_ostream-stream_of s debug = refl
get_ostream-stream_of s info = refl
get_ostream-stream_of s warn = refl
get_ostream-stream_of s error = refl
get_ostream-stream_of s silent = refl

-- What ends a line that is open on the stream `last`, before the stream `next` is written to.
abbrev pub line_end : ℕ → ℕ → List Out
line_end last next = put last 10 ∷ (if last == next then [] else flushed last ∷ [])

-- The appender that a text of the location is written to: a line that another location has left
-- open is ended.
abbrev pub started : Location → Appender → Appender
started location a =
    let same = equal a.last_location location in
    let last = stream_of a.settings a.last_location.level in
    let next = stream_of a.settings location.level in
    record a {
      is_first_character_in_line = if same then a.is_first_character_in_line else true;
      last_location = if same then a.last_location else location;
      output =
          a.output
          ++ (if same then [] else if a.is_first_character_in_line then [] else line_end last next);
    }

pub open_location-started :
    (location : Location) (a : Appender) → open_location location a ≡ started location a
unfolding open_location emit
open_location-started location a =
    ap₂ (opened (equal a.last_location location) a.is_first_character_in_line)
      (get_ostream-stream_of a.settings a.last_location.level)
      (get_ostream-stream_of a.settings location.level)
    ∙ go (equal a.last_location location) a.is_first_character_in_line refl
        (stream_of a.settings a.last_location.level) (stream_of a.settings location.level)
  where
    opened : Bool → Bool → ℕ → ℕ → Appender
    opened same first last next =
        let ended = record (emit last (10 ∷ []) a) { is_first_character_in_line = true } in
        if same
        then a
        else if first
        then record a { last_location = location }
        else if last == next
        then record ended { last_location = location }
        else record ended { output = ended.output ++ flushed last ∷ []; last_location = location }

    go :
        (same first : Bool)
        → a.is_first_character_in_line ≡ first
        → (last next : ℕ)
        → opened same first last next ≡ record a {
          is_first_character_in_line = if same then a.is_first_character_in_line else true;
          last_location = if same then a.last_location else location;
          output = a.output ++ (if same then [] else if first then [] else line_end last next);
        }
    go true first h last next =
        ap (λ (o : List Out). record a { output = o }) (sym (append-nil a.output))
    go false true h last next =
        ap₂
          (λ (o : List Out) (f : Bool). record a {
            output = o;
            is_first_character_in_line = f;
            last_location = location;
          })
          (sym (append-nil a.output)) h
    go false false h last next =
        if_cases
          (λ (x : Appender). x ≡ record a {
            is_first_character_in_line = true;
            last_location = location;
            output = a.output ++ line_end last next;
          })
          (last == next) _ _
          (λ e.
            ap (λ os. moved (a.output ++ put last 10 ∷ os))
              (sym (if_true (last == next) [] (flushed last ∷ []) e)))
          (λ e. ap moved (
            append_assoc a.output (put last 10 ∷ []) (flushed last ∷ [])
            ∙ ap (λ os. a.output ++ put last 10 ∷ os)
                (sym (if_false (last == next) [] (flushed last ∷ []) e))))
      where
        moved : List Out → Appender
        moved o = record a {
          output = o;
          is_first_character_in_line = true;
          last_location = location;
        }
