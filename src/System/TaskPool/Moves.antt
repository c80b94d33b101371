-- ===== src/System/TaskPool/Moves.antt =====
-- What one move of a thread leaves of the places of the tasks.
use open_esl.Prelude.{ℕ, ◌+◌, ◌≤◌, ◌≡◌, sym, ap, ◌∙◌, List, ◌∷◌, ◌++◌, arith, length}
use open_esl.System.TaskPool.{
  Pc, inner_max, exiting, inserting, starting, running, System, after_exit, insert_key, erase_key,
}
use open_esl.System.TaskPool.Counts.{
  one, count, holds, runs, registers, sum, sum-middle, length-insert, count-insert_key,
  count-erase_key, sum-registers,
}
use open_esl.System.TaskPool.Places.{Inv}

-- One move of a thread, from `pc`.
module _ (limit : ℕ) (s : System) (before : List Pc) (pc : Pc) (behind : List Pc)
    (e : s.threads ≡ before ++ pc ∷ behind) (v : Inv limit s) where
  abbrev rest : (Pc → ℕ) → ℕ
  rest f = sum f (before ++ behind)

  now : (f : Pc → ℕ) → sum f s.threads ≡ f pc + rest f
  now f = ap (sum f) e ∙ sum-middle f before pc behind

  after : (f : Pc → ℕ) (to : Pc) → sum f (before ++ to ∷ behind) ≡ f to + rest f
  after f to = sum-middle f before to behind

  same_length : (to : Pc) → length s.threads ≡ length (before ++ to ∷ behind)
  same_length to =
      ap length e ∙ length-insert before pc behind ∙ sym (length-insert before to behind)

  -- A move that changes nothing but the place of the thread, between places without a task.
  pub move-Inv :
      (to : Pc)
      → ((a : ℕ) → holds a pc + (runs a pc + registers a pc) ≡ 0)
      → ((a : ℕ) → holds a to + (runs a to + registers a to) ≡ 0)
      → Inv limit (record s { threads = before ++ to ∷ behind })
  move-Inv to h k = record {
    placed = λ a. omega (arith, v.placed a, now (holds a), after (holds a) to, h a, k a);
    called = λ a. omega (arith, v.called a, now (runs a), after (runs a) to, h a, k a);
    registered =
        λ a. omega (arith, v.registered a, now (registers a), after (registers a) to, h a, k a);
    counted = omega (arith, v.counted, same_length to);
    bounded = v.bounded;
    limited = v.limited;
  }

  -- A thread takes the task from the front of the queue.
  pub fetch-Inv :
      (a : ℕ) (queue : List ℕ)
      → s.pool.queue ≡ a ∷ queue
      → ((b : ℕ) → holds b pc + (runs b pc + registers b pc) ≡ 0)
      → Inv limit (record s {
        pool = record s.pool { queue = queue };
        threads = before ++ inserting a ∷ behind;
      })
  fetch-Inv a queue q h = record {
    placed = λ b.
        omega
          (arith, v.placed b, now (holds b), after (holds b) (inserting a), h b, ap (count b) q);
    called = λ b. omega (arith, v.called b, now (runs b), after (runs b) (inserting a), h b);
    registered = λ b.
        omega (arith, v.registered b, now (registers b), after (registers b) (inserting a), h b);
    counted = omega (arith, v.counted, same_length (inserting a));
    bounded = v.bounded;
    limited = v.limited;
  }

  pub insert-Inv :
      (a : ℕ)
      → pc ≡ inserting a
      → Inv limit (record s {
        pool = record s.pool { threads_processing = insert_key a s.pool.threads_processing };
        threads = before ++ starting a ∷ behind;
      })
  insert-Inv a h =
      let at : (f : ℕ → Pc → ℕ) (b : ℕ) → f b pc ≡ f b (inserting a) = λ f b. ap (f b) h in
      let absent : count a s.pool.threads_processing ≡ 0 = ground (
        arith,
        v.placed a,
        v.called a,
        v.registered a,
        sum-registers a (before ++ behind),
        now (holds a),
        now (runs a),
        now (registers a),
        at holds a,
        at runs a,
        at registers a,
      ) in
      record {
        placed =
            λ b. omega (arith, v.placed b, now (holds b), after (holds b) (starting a), at holds b);
        called =
            λ b. omega (arith, v.called b, now (runs b), after (runs b) (starting a), at runs b);
        registered = λ b. omega (
          arith,
          v.registered b,
          now (registers b),
          after (registers b) (starting a),
          at registers b,
          count-insert_key a b s.pool.threads_processing absent,
        );
        counted = omega (arith, v.counted, same_length (starting a));
        bounded = v.bounded;
        limited = v.limited;
      }

  pub start-Inv :
      (a : ℕ)
      → pc ≡ starting a
      → Inv limit (record s { threads = before ++ running a ∷ behind; started = a ∷ s.started })
  start-Inv a h =
      let at : (f : ℕ → Pc → ℕ) (b : ℕ) → f b pc ≡ f b (starting a) = λ f b. ap (f b) h in
      record {
        placed =
            λ b. omega (arith, v.placed b, now (holds b), after (holds b) (running a), at holds b);
        called =
            λ b. omega (arith, v.called b, now (runs b), after (runs b) (running a), at runs b);
        registered = λ b. omega (
          arith,
          v.registered b,
          now (registers b),
          after (registers b) (running a),
          at registers b,
        );
        counted = omega (arith, v.counted, same_length (running a));
        bounded = v.bounded;
        limited = v.limited;
      }

  pub finish-Inv :
      (a : ℕ)
      → pc ≡ running a
      → Inv limit (record s {
        pool = record s.pool { threads_processing = erase_key a s.pool.threads_processing };
        threads = before ++ inner_max ∷ behind;
      })
  finish-Inv a h =
      let at : (f : ℕ → Pc → ℕ) (b : ℕ) → f b pc ≡ f b (running a) = λ f b. ap (f b) h in
      let alone : (b : ℕ) → one b a + rest (registers b) ≤ 1 = λ b. ground (
        arith,
        v.placed b,
        v.called b,
        sum-registers b s.threads,
        now (registers b),
        at registers b,
      ) in
      let unique : count a s.pool.threads_processing ≤ 1 =
        omega (arith, alone a, v.registered a, now (registers a), at registers a) in
      record {
        placed =
            λ b. omega (arith, v.placed b, now (holds b), after (holds b) inner_max, at holds b);
        called = λ b. omega (arith, v.called b, now (runs b), after (runs b) inner_max, at runs b);
        registered = λ b. ground (
          arith,
          v.registered b,
          now (registers b),
          after (registers b) inner_max,
          at registers b,
          count-erase_key a b s.pool.threads_processing unique,
          alone b,
        );
        counted = omega (arith, v.counted, same_length inner_max);
        bounded = v.bounded;
        limited = v.limited;
      }

  pub exit-Inv : pc ≡ exiting → Inv limit (after_exit s before behind)
  exit-Inv h = record {
    placed = λ a. omega (arith, v.placed a, now (holds a), ap (holds a) h);
    called = λ a. omega (arith, v.called a, now (runs a), ap (runs a) h);
    registered = λ a. omega (arith, v.registered a, now (registers a), ap (registers a) h);
    counted = omega (arith, v.counted, ap length e, length-insert before pc behind);
    bounded = omega (arith, v.bounded);
    limited = v.limited;
  }
