-- ===== src/Monitoring/MemBufferAppender/Newline.antt =====
-- What the end of a line does to the lines that the rows stand for.
use open_esl.Prelude.{
  ℕ, suc, ◌-◌, ◌≤◌, ◌<◌, ◌≡◌, refl, sym, ap, ap₂, subst, ◌∙◌, List, [], ◌∷◌, ◌++◌, arith, ◌==◌,
  if◌then◌else◌, ==-refl, if_cases, if_true, length, drop,
}
use open_esl.Monitoring.Location.{Location}
use open_esl.Monitoring.MemBufferAppender.{Entry, Appender, next_row, assign, set_location, newline}
use open_esl.Monitoring.MemBufferAppender.Log.{Log, keep, end_line}
use open_esl.Monitoring.MemBufferAppender.Rows.{
  row_at, next_row-row_at, gather, length-gather, gather-assign, gather-next,
}
use open_esl.Monitoring.MemBufferAppender.Steps.{Implements, set_location-Implements}

module _ (a : Appender) (log : Log) (v : Implements a log) where
  -- An appender that goes on with an empty row.
  at_row : ℕ → ℕ → Appender
  at_row row consumer = record a {
    row_producer = row;
    row_consumer = consumer;
    entries = assign row (record (a.entries row) { line = [] }) a.entries;
    columns_producer = 0;
  }

  at_row-Implements :
      (row consumer distance : ℕ)
      → row ≡ row_at a.max_lines consumer distance
      → consumer ≤ a.max_lines
      → distance ≤ a.max_lines
      → Implements (at_row row consumer) (record {
        lines = gather a.max_lines a.entries consumer distance;
        current = record (a.entries row) { line = [] };
      })
  unfolding at_row
  at_row-Implements row consumer distance e h k =
      let x : Entry = record (a.entries row) { line = [] } in
      record {
        distance = distance;
        in_ring = k;
        consumer_in_ring = h;
        producer = e;
        lines =
            sym (gather-assign a.max_lines a.entries consumer distance distance x h (omega arith) k)
            ∙ ap (λ i. gather a.max_lines (assign i x a.entries) consumer distance) (sym e);
        current = sym (if_true (row == row) _ _ (==-refl row));
        columns = refl;
        clipped = ground arith;
      }

  -- The lines with the current one.
  all_lines :
      log.lines ++ log.current ∷ [] ≡ gather a.max_lines a.entries a.row_consumer (suc v.distance)
  all_lines = ap₂ (λ xs x. xs ++ x ∷ []) v.lines (v.current ∙ ap a.entries v.producer)

  size : length (log.lines ++ log.current ∷ []) ≡ suc v.distance
  size = ap length all_lines ∙ length-gather a.max_lines a.entries a.row_consumer (suc v.distance)

  abbrev kept : List Entry
  kept = keep a.max_lines (log.lines ++ log.current ∷ [])

  kept_free :
      v.distance < a.max_lines → kept ≡ gather a.max_lines a.entries a.row_consumer (suc v.distance)
  kept_free h =
      let nothing : length (log.lines ++ log.current ∷ []) - a.max_lines ≡ 0 =
        omega (arith, size, h) in
      ap (λ m. drop m (log.lines ++ log.current ∷ [])) nothing ∙ all_lines

  kept_full :
      v.distance ≡ a.max_lines
      → kept ≡ gather a.max_lines a.entries (row_at a.max_lines a.row_consumer 1) a.max_lines
  kept_full h =
      let one : length (log.lines ++ log.current ∷ []) - a.max_lines ≡ 1 = omega (arith, size, h) in
      ap (λ m. drop m (log.lines ++ log.current ∷ [])) one
      ∙ ap (drop 1) (
          all_lines
          ∙ ap (λ d. gather a.max_lines a.entries a.row_consumer (suc d)) h
          ∙ gather-next a.max_lines a.entries a.row_consumer a.max_lines v.consumer_in_ring
              (omega arith))

  next : ℕ
  next = next_row a.max_lines a.row_producer

  next-row_at : next ≡ row_at a.max_lines a.row_consumer (suc v.distance)
  unfolding next
  next-row_at =
      ap (next_row a.max_lines) v.producer
      ∙ next_row-row_at a.max_lines a.row_consumer v.distance v.consumer_in_ring v.in_ring

  abbrev Ended : ℕ → Type 0
  Ended consumer =
      Implements (at_row next consumer)
        (record { lines = kept; current = record (a.entries next) { line = [] } })

  advance-Implements :
      Ended (if a.row_consumer == next then next_row a.max_lines a.row_consumer else a.row_consumer)
  advance-Implements =
      if_cases Ended (a.row_consumer == next) _ _
        (λ e.
          let full : v.distance ≡ a.max_lines =
            ground (arith, e, next-row_at, v.in_ring, v.consumer_in_ring) in
          let consumer : next_row a.max_lines a.row_consumer ≡ row_at a.max_lines a.row_consumer 1 =
            ap (next_row a.max_lines) (ground (arith, v.consumer_in_ring))
            ∙ next_row-row_at a.max_lines a.row_consumer 0 v.consumer_in_ring (omega arith) in
          subst Ended (sym consumer) (
            subst
              (λ xs.
                Implements (at_row next (row_at a.max_lines a.row_consumer 1))
                  (record { lines = xs; current = record (a.entries next) { line = [] } }))
              (sym (kept_full full))
              (at_row-Implements next (row_at a.max_lines a.row_consumer 1) a.max_lines
                (ground (arith, e, v.consumer_in_ring)) (ground (arith, v.consumer_in_ring))
                (omega arith))))
        (λ e.
          let free : v.distance < a.max_lines =
            ground (arith, e, next-row_at, v.in_ring, v.consumer_in_ring) in
          subst
            (λ xs.
              Implements (at_row next a.row_consumer)
                (record { lines = xs; current = record (a.entries next) { line = [] } }))
            (sym (kept_free free))
            (at_row-Implements next a.row_consumer (suc v.distance) next-row_at v.consumer_in_ring
              (omega (arith, free))))

-- The line ends, and the row that `newline` goes on with becomes one of the location.
pub newline-Implements :
    (a : Appender) (log : Log) (location : Location)
    → Implements a log
    → Implements (set_location location (newline a)) (end_line a.max_lines location log)
unfolding newline end_line at_row next
newline-Implements a log location v =
    set_location-Implements (newline a) _ (advance-Implements a log v) location
