-- ===== src/Io/Input/Tests.antt =====
-- Runs of the adapters, and the theorems at concrete inputs.
use open_esl.Prelude.{
  ℕ, ◌≡◌, refl, sym, inl, Bool, true, false, Option, some, [], ◌∷◌, ◌++◌, append-nil, arith,
  replicate, Bytes,
}
use open_esl.Io.Input.{ReaderMemory, read, Written, write, ConsumerWriter, flush_buffer, consume}
use open_esl.Io.Input.Transfer.{read-Passes, Forwarded, write-Forwarded}
use open_esl.Io.Input.Flush.{Takes, Keeps, flush_buffer-Keeps, consume_short_read}

-- A consumer that keeps what it reads, two bytes for each call.
abbrev pairs : Bytes → ReaderMemory → Bytes × ReaderMemory × Bool
pairs s r = (s ++ (read r 2).2, (read r 2).0, true)

write_runs :
    write pairs [] false (1 ∷ 2 ∷ 3 ∷ [])
    ≡ some (record { consumer = 1 ∷ 2 ∷ 3 ∷ []; is_consumer_eof = false; result = some 3 })
unfolding write read
write_runs = refl

write-Forwarded_example :
    (w : Written Bytes) × (write pairs [] false (1 ∷ 2 ∷ 3 ∷ []) ≡ some w)
    × Forwarded (λ t. t) [] (1 ∷ 2 ∷ 3 ∷ []) 0 w
write-Forwarded_example =
    write-Forwarded pairs (λ t. t) (λ s r h. read-Passes s r 2 h) [] (1 ∷ 2 ∷ 3 ∷ [])

-- A writer that takes one byte for each call.
abbrev one : Bytes → Bytes → Bytes × Option ℕ
one w [] = (w, some 0)
one w (b ∷ bs) = (w ++ b ∷ [], some 1)

one-Takes : (w bytes : Bytes) → Takes (λ t. t) w bytes (one w bytes).0 (one w bytes).1
one-Takes w [] = record {
  amount = 0;
  within = omega arith;
  took = sym (append-nil w);
  says = inl refl;
}
one-Takes w (b ∷ bs) = record { amount = 1; within = omega arith; took = refl; says = inl refl }

abbrev two_left : ConsumerWriter
two_left = record {
  current_buffer_size = 2;
  buffer = replicate 4094 0 ++ 8 ∷ 9 ∷ [];
  is_reader_eof = false;
  is_writer_eof = false;
}

flush_buffer-Keeps_example : Keeps (λ t. t) two_left (7 ∷ []) (flush_buffer one two_left (7 ∷ []))
flush_buffer-Keeps_example =
    flush_buffer-Keeps one (λ t. t) one-Takes two_left (7 ∷ []) refl (omega arith)

abbrev unused : ConsumerWriter
unused = record two_left { current_buffer_size = 0 }

-- A reader that returns one byte.
abbrev one_byte : ℕ → ℕ → ℕ × Option ℕ × Bytes
one_byte r size = (r, some 1, 5 ∷ [])

consume_short_read_example : (consume one_byte one unused 0 []).2 ≡ 9 ∷ []
consume_short_read_example =
    consume_short_read one_byte one unused 0 0 [] (5 ∷ []) refl refl refl refl (omega arith)
      (omega arith)
