-- ===== src/Monitoring/MemBufferAppender/Steps.antt =====
-- What each step of `write` does to the lines that the rows stand for.
use open_esl.Prelude.{
  ℕ, zero, suc, ◌+◌, ◌-◌, ◌≤◌, ◌≡◌, refl, sym, ap, subst, ◌∙◌, ◌⊎◌, inl, inr, Bool, true, false, [],
  ◌∷◌, ◌++◌, arith, ◌==◌, if◌then◌else◌, ==-refl, if_true, length, take, length-append, Bytes,
  take_all,
}
use open_esl.Monitoring.Location.{Location}
use open_esl.Monitoring.MemBufferAppender.{
  min, Entry, Appender, assign, current, set_current, set_location, write_text,
}
use open_esl.Monitoring.MemBufferAppender.Log.{Log, clip, add}
use open_esl.Monitoring.MemBufferAppender.Rows.{row_at, gather, gather-assign}

-- The appender `a` has the lines of `log` in `distance` rows, and its current line behind them.
pub record Implements (a : Appender) (log : Log) : Type 0 where
  pub distance : ℕ
  pub in_ring : distance ≤ a.max_lines
  pub consumer_in_ring : a.row_consumer ≤ a.max_lines
  pub producer : a.row_producer ≡ row_at a.max_lines a.row_consumer distance
  pub lines : log.lines ≡ gather a.max_lines a.entries a.row_consumer distance
  pub current : log.current ≡ a.entries a.row_producer
  pub columns : a.columns_producer ≡ length log.current.line
  pub clipped : (a.max_columns ≡ 0) ⊎ (a.columns_producer ≤ a.max_columns)

take-min : (text : Bytes) (n : ℕ) → take (min (length text) n) text ≡ take n text
take-min [] n = take_all (min 0 n) [] (omega arith) ∙ sym (take_all n [] (omega arith))
take-min (c ∷ text) zero =
    let none_left : min (suc (length text)) 0 ≡ 0 = omega arith in
    ap (λ m. take m (c ∷ text)) none_left
take-min (c ∷ text) (suc n) =
    let one_more : min (suc (length text)) (suc n) ≡ suc (min (length text) n) = omega arith in
    ap (λ m. take m (c ∷ text)) one_more ∙ ap (λ xs. c ∷ xs) (take-min text n)

length-take : (n : ℕ) (text : Bytes) → n ≤ length text → length (take n text) ≡ n
length-take zero text h = refl
length-take (suc n) [] h = absurd (omega (arith, h))
length-take (suc n) (c ∷ text) h = ap suc (length-take n text (omega (arith, h)))

take-append_min :
    (n : ℕ) (line text : Bytes)
    → length line ≤ n
    → take n (line ++ text) ≡ line ++ take (min (length text) (n - length line)) text
take-append_min n [] text h =
    let whole : n ≡ n - 0 = omega arith in
    sym (take-min text n) ∙ ap (λ m. take (min (length text) m) text) whole
take-append_min zero (c ∷ line) text h = absurd (omega (arith, h))
take-append_min (suc n) (c ∷ line) text h =
    let one_less : n - length line ≡ suc n - suc (length line) = omega arith in
    ap (λ xs. c ∷ xs)
      (take-append_min n line text (omega (arith, h))
        ∙ ap (λ m. line ++ take (min (length text) m) text) one_less)

module _ (a : Appender) (log : Log) (v : Implements a log) where
  -- A change of the current entry.
  set_current-Implements :
      (x : Entry) (columns : ℕ)
      → columns ≡ length x.line
      → (a.max_columns ≡ 0) ⊎ (columns ≤ a.max_columns)
      → Implements
          (record (set_current x a) { columns_producer = columns })
          (record log { current = x })
  set_current-Implements x columns h k = record {
    distance = v.distance;
    in_ring = v.in_ring;
    consumer_in_ring = v.consumer_in_ring;
    producer = v.producer;
    lines =
        v.lines
        ∙ sym (
            gather-assign a.max_lines a.entries a.row_consumer v.distance v.distance x
              v.consumer_in_ring (omega arith) v.in_ring)
        ∙ ap (λ i. gather a.max_lines (assign i x a.entries) a.row_consumer v.distance)
            (sym v.producer);
    current = sym (if_true (a.row_producer == a.row_producer) _ _ (==-refl a.row_producer));
    columns = h;
    clipped = k;
  }

  pub set_location-Implements :
      (location : Location)
      → Implements
          (set_location location a)
          (record log { current = record log.current { location = location } })
  unfolding set_location
  set_location-Implements location =
      subst
        (λ (x : Entry).
          Implements (set_current (record (current a) { location = location }) a)
            (record log { current = record x { location = location } }))
        (sym v.current)
        (set_current-Implements (record (current a) { location = location }) a.columns_producer
          (v.columns ∙ ap (λ (x : Entry). length x.line) v.current) v.clipped)

  write_text-branch :
      (text : Bytes) (unlimited : Bool)
      → (a.max_columns == 0) ≡ unlimited
      → Implements
          (if unlimited
            then record (set_current (record (current a) { line = (current a).line ++ text }) a) {
              columns_producer = a.columns_producer + length text;
            }
            else record (set_current
                (record (current a) {
                  line =
                      (current a).line
                      ++ take (min (length text) (a.max_columns - a.columns_producer)) text;
                })
                a) {
                  columns_producer =
                      a.columns_producer + min (length text) (a.max_columns - a.columns_producer);
                })
          (record log {
            current = record log.current {
              line =
                  if unlimited
                  then log.current.line ++ text
                  else take a.max_columns (log.current.line ++ text);
            };
          })
  write_text-branch text true e =
      subst
        (λ (x : Entry).
          Implements
            (record (set_current (record (current a) { line = (current a).line ++ text }) a) {
              columns_producer = a.columns_producer + length text;
            })
            (record log { current = record x { line = x.line ++ text } }))
        (sym v.current)
        (set_current-Implements (record (current a) { line = (current a).line ++ text })
          (a.columns_producer + length text)
          (omega (
            arith,
            v.columns,
            ap (λ (x : Entry). length x.line) v.current,
            length-append (current a).line text,
          ))
          (inl (ground (arith, e))))
  write_text-branch text false e =
      let room = min (length text) (a.max_columns - a.columns_producer) in
      let columns : a.columns_producer ≡ length (current a).line =
        v.columns ∙ ap (λ (x : Entry). length x.line) v.current in
      let fits : a.columns_producer ≤ a.max_columns = ground (arith, e, v.clipped) in
      let line : (current a).line ++ take room text
          ≡ take a.max_columns ((current a).line ++ text) =
        ap (λ n. (current a).line ++ take (min (length text) (a.max_columns - n)) text) columns
        ∙ sym
            (take-append_min a.max_columns (current a).line text (omega (arith, fits, columns))) in
      subst
        (λ (x : Entry).
          Implements
            (record (set_current (record (current a) { line = (current a).line ++ take room text })
              a) { columns_producer = a.columns_producer + room })
            (record log { current = x }))
        (ap (λ l. record (current a) { line = l }) line
          ∙ ap (λ (x : Entry). record x { line = take a.max_columns (x.line ++ text) })
              (sym v.current))
        (set_current-Implements (record (current a) { line = (current a).line ++ take room text })
          (a.columns_producer + room)
          (omega (
            arith,
            columns,
            length-append (current a).line (take room text),
            length-take room text (omega arith),
          ))
          (inr (omega (arith, fits))))

  pub write_text-Implements :
      (text : Bytes) → Implements (write_text text a) (add a.max_columns text log)
  unfolding write_text add clip
  write_text-Implements text = write_text-branch text (a.max_columns == 0) refl
