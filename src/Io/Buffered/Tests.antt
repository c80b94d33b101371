-- ===== src/Io/Buffered/Tests.antt =====
-- Two passes over a small reader.
use open_esl.Prelude.{suc, ◌≡◌, refl, true, none, some, List, [], ◌∷◌, arith, take, length}
use open_esl.Io.Buffered.{
  new_buffered, line_at, has_cached, store_line, probe, fetch, read, sizes, get_size, reset,
}
use open_esl.Io.Buffered.Replay.{read_all}
use open_esl.Io.Buffered.Records.{Call, run, run-replayed}

-- Three bytes, of which two are wanted, then the third, then the end.
abbrev calls : List Call
calls =
    record { readable = none; answer = λ n. some (take n (7 ∷ 8 ∷ 9 ∷ [])); size = 2 }
    ∷ record { readable = some 1; answer = λ n. some (take n (9 ∷ [])); size = 2 }
    ∷ record { readable = some 0; answer = λ n. none; size = 2 }
    ∷ []

three_bytes : run calls new_buffered ≡ (
  record {
    buffers = (7 ∷ 8 ∷ []) ∷ (9 ∷ []) ∷ [];
    current_index = some 1;
    current_pos = 1;
    completed = true;
  },
  7 ∷ 8 ∷ 9 ∷ [],
)
unfolding run new_buffered read has_cached line_at fetch store_line probe
three_bytes = refl

three_bytes_size : get_size (run calls new_buffered).0 ≡ some 3
unfolding run new_buffered read has_cached line_at fetch store_line probe get_size sizes
three_bytes_size = refl

run-replayed_example :
    read_all
      (suc (length (run calls new_buffered).1))
      none
      (λ n. none)
      2
      (reset (run calls new_buffered).0)
    ≡ some (run calls new_buffered).1
unfolding run new_buffered read has_cached line_at fetch store_line probe
run-replayed_example = run-replayed calls none (λ n. none) 2 refl (omega arith)
