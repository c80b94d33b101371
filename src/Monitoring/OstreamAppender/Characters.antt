-- ===== src/Monitoring/OstreamAppender/Characters.antt =====
-- `write` of the stream appender, character by character.
use open_esl.Prelude.{
  if◌then◌else◌, ℕ, ◌≡◌, refl, sym, ap, ap₂, ◌∙◌, ◌⊎◌, inl, inr, Bool, true, false, List, [], ◌∷◌,
  ◌++◌, map, append-nil, append_assoc, arith, ◌==◌, if_cases, if_true, if_false, Bytes,
}
use open_esl.Monitoring.Location.{Location, is_recorded}
use open_esl.Monitoring.OstreamAppender.Opening.{
  stream_of, started, get_ostream-stream_of, open_location-started,
}
use open_esl.Monitoring.OstreamAppender.{
  layout_text, Out, put, Appender, get_ostream, emit, open_location, start_line, write_loop, write,
}

-- A character, after the layout if it is the first one of its line.
abbrev pub write_char : Location → ℕ → ℕ → Appender → Appender
write_char location stream c a =
    let before = if a.is_first_character_in_line then layout_text a.layout location else [] in
    record a {
      output = a.output ++ map (put stream) (before ++ c ∷ []);
      is_first_character_in_line = c == 10;
    }

abbrev pub write_chars : Location → ℕ → Bytes → Appender → Appender
write_chars location stream [] a = a
write_chars location stream (c ∷ text) a =
    write_chars location stream text (write_char location stream c a)

emit_nothing : (stream : ℕ) (a : Appender) → emit stream [] a ≡ a
unfolding emit
emit_nothing stream a = ap (λ (o : List Out). record a { output = o }) (append-nil a.output)

map-append : (f : ℕ → Out) (text more : Bytes) → map f (text ++ more) ≡ map f text ++ map f more
map-append f [] more = refl
map-append f (c ∷ text) more = ap (λ os. f c ∷ os) (map-append f text more)

emit-emit :
    (stream : ℕ) (text more : Bytes) (a : Appender)
    → emit stream more (emit stream text a) ≡ emit stream (text ++ more) a
unfolding emit
emit-emit stream text more a =
    ap (λ (o : List Out). record a { output = o })
      (append_assoc a.output (map (put stream) text) (map (put stream) more)
        ∙ ap (λ os. a.output ++ os) (sym (map-append (put stream) text more)))

write_char_lem :
    (location : Location) (stream c : ℕ) (a : Appender)
    → write_char location stream c a
      ≡ record (emit stream (c ∷ []) (start_line location stream a)) {
        is_first_character_in_line = c == 10;
      }
unfolding emit start_line
write_char_lem location stream c a = go a.is_first_character_in_line
  where
    go :
        (first : Bool)
        → record a {
          output =
              a.output
              ++ map (put stream) ((if first then layout_text a.layout location else []) ++ c ∷ []);
          is_first_character_in_line = c == 10;
        }
          ≡ record (emit stream (c ∷ []) (
              if first
              then record (emit stream (layout_text a.layout location) a) {
                is_first_character_in_line = false;
              }
              else a)) { is_first_character_in_line = c == 10 }
    go true =
        ap (λ (b : Appender). record b { is_first_character_in_line = c == 10 })
          (sym (emit-emit stream (layout_text a.layout location) (c ∷ []) a))
    go false = refl

-- The layout comes before the text of the line that is held back, since that is empty then.
start_line-emit :
    (location : Location) (stream : ℕ) (line : Bytes) (a : Appender)
    → (a.is_first_character_in_line ≡ false) ⊎ (line ≡ [])
    → start_line location stream (emit stream line a)
      ≡ emit stream line (start_line location stream a)
unfolding start_line emit
start_line-emit location stream line a (inl h) =
    if_false a.is_first_character_in_line _ _ h
    ∙ ap (emit stream line) (sym (if_false a.is_first_character_in_line _ _ h))
start_line-emit location stream line a (inr h) =
    ap (λ l. start_line location stream (emit stream l a)) h
    ∙ ap (start_line location stream) (emit_nothing stream a)
    ∙ sym (emit_nothing stream (start_line location stream a))
    ∙ ap (λ l. emit stream l (start_line location stream a)) (sym h)

start_line-inside :
    (location : Location) (stream : ℕ) (a : Appender)
    → (start_line location stream a).is_first_character_in_line ≡ false
unfolding start_line
start_line-inside location stream a =
    if_cases (λ (b : Appender). b.is_first_character_in_line ≡ false) a.is_first_character_in_line _
      _ (λ _. refl) (λ e. e)

abbrev Continues : Location → ℕ → Bytes → Bytes → Appender → Type 0
Continues location stream line text a =
    write_loop location stream line text a ≡ write_chars location stream text (emit stream line a)

-- The character behind the text that is held back.
write_char-emit :
    (location : Location) (stream c : ℕ) (line : Bytes) (a : Appender) (ends : Bool)
    → (a.is_first_character_in_line ≡ false) ⊎ (line ≡ [])
    → (c == 10) ≡ ends
    → write_char location stream c (emit stream line a)
      ≡ record (emit stream (line ++ c ∷ []) (start_line location stream a)) {
        is_first_character_in_line = ends;
      }
write_char-emit location stream c line a ends h e =
    write_char_lem location stream c (emit stream line a)
    ∙ ap₂ (λ (b : Appender) first. record b { is_first_character_in_line = first })
        (ap (emit stream (c ∷ [])) (start_line-emit location stream line a h)
          ∙ emit-emit stream line (c ∷ []) (start_line location stream a))
        e

write_byte-chars :
    (location : Location) (stream c : ℕ) (line text : Bytes) (a : Appender) (ends : Bool)
    → ((more : Bytes) (b : Appender)
        → (b.is_first_character_in_line ≡ false) ⊎ (more ≡ [])
        → Continues location stream more text b)
    → (a.is_first_character_in_line ≡ false) ⊎ (line ≡ [])
    → (c == 10) ≡ ends
    → elim ends [
      | true ↦
          write_loop location stream [] text
            (record (emit stream (line ++ 10 ∷ []) (start_line location stream a)) {
              is_first_character_in_line = true;
            })
      | false ↦ write_loop location stream (line ++ c ∷ []) text (start_line location stream a)
    ]
      ≡ write_chars location stream text (write_char location stream c (emit stream line a))
unfolding emit
write_byte-chars location stream c line text a true rest h e =
    let newline : 10 ≡ c = ground (arith, e) in
    let b : Appender = record (emit stream (line ++ 10 ∷ []) (start_line location stream a)) {
      is_first_character_in_line = true;
    } in
    rest [] b (inr refl)
    ∙ ap (write_chars location stream text) (
        emit_nothing stream b
        ∙ ap
            (λ d. record (emit stream (line ++ d ∷ []) (start_line location stream a)) {
              is_first_character_in_line = true;
            })
            newline
        ∙ sym (write_char-emit location stream c line a true h e))
write_byte-chars location stream c line text a false rest h e =
    let b : Appender = start_line location stream a in
    rest (line ++ c ∷ []) b (inl (start_line-inside location stream a))
    ∙ ap (write_chars location stream text) (
        ap (λ first. record (emit stream (line ++ c ∷ []) b) { is_first_character_in_line = first })
          (start_line-inside location stream a)
        ∙ sym (write_char-emit location stream c line a false h e))

write_loop-chars :
    (location : Location) (stream : ℕ) (line text : Bytes) (a : Appender)
    → (a.is_first_character_in_line ≡ false) ⊎ (line ≡ [])
    → Continues location stream line text a
unfolding write_loop
write_loop-chars location stream line [] a h = refl
write_loop-chars location stream line (c ∷ text) a h =
    write_byte-chars location stream c line text a (c == 10)
      (λ more b k. write_loop-chars location stream more text b k) h refl

-- What is recorded is written character by character to the stream of its level, the layout of its
-- location before each character that is the first of its line. A line that another location has
-- left open is ended first, by a line break on the stream of that location, which is flushed if it
-- is another stream; and the location is remembered.
pub write-chars :
    (location : Location) (text : Bytes) (a : Appender)
    → is_recorded a.record_level location ≡ true
    → write location text a
      ≡ write_chars location (stream_of a.settings location.level) text (started location a)
unfolding write
write-chars location text a h =
    let stream = get_ostream a.settings location.level in
    if_true (is_recorded a.record_level location) _ _ h
    ∙ write_loop-chars location stream [] text (open_location location a) (inr refl)
    ∙ ap (write_chars location stream text) (emit_nothing stream (open_location location a))
    ∙ ap₂ (λ n x. write_chars location n text x) (get_ostream-stream_of a.settings location.level)
        (open_location-started location a)
