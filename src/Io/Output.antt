-- ===== src/Io/Output.antt =====
-- The adapters of esl/src/esl/io/Output.cpp: `WriterMemory`, `ReaderProducer`, which reads what a
-- producer writes, and `ProducerReader`, which writes what a reader returns. A number of bytes of
-- `none` stands for `npos`. The producer, the reader and the writer behind an adapter are arguments.
pub mod Collect
mod Tests
use open_esl.Prelude.{
  ℕ, zero, suc, ◌+◌, ◌-◌, refl, Bool, true, false, not, ◌&&◌, Option, none, some, [], ◌++◌, ltb,
  ◌==◌, if◌then◌else◌, length, take, drop, Bytes,
}
use open_esl.Io.Input.{max_buffer_size}

-- The memory of `bufferSize` bytes, and the bytes that have been written to it from its start on.
pub record WriterMemory : Type 0 where
  pub buffer_size : ℕ
  pub written : Bytes

unfoldable pub get_memory_writable : WriterMemory → ℕ
get_memory_writable m = m.buffer_size - length m.written

-- `WriterMemory::write`
unfoldable pub write_memory : WriterMemory → Bytes → WriterMemory × Option ℕ
unfolding get_memory_writable
write_memory m bytes =
    let writable = get_memory_writable m in
    let size = if ltb writable (length bytes) then writable else length bytes in
    if m.buffer_size == 0
    then (m, none)
    else (record m { written = m.written ++ take size bytes }, some size)

-- What a call of `ReaderProducer::read` leaves: the bytes copied and what it returns.
pub record Collected (P : Type 0) : Type 0 where
  pub producer : P
  pub is_producer_eof : Bool
  pub bytes : Bytes
  pub result : Option ℕ

-- What a round of the loop of `read` does after the producer returned `npos` or a number of bytes.
unfoldable pub after_produce :
    {P : Type 0} → P → Bytes → ℕ → Option ℕ → Option (Collected P) → Option (Collected P)
after_produce q bytes size_written none rest =
    some
      (record { producer = q; is_producer_eof = true; bytes = bytes; result = some (length bytes) })
after_produce q bytes size_written (some n) rest =
    if size_written == 0
    then some (record {
      producer = q;
      is_producer_eof = false;
      bytes = bytes;
      result = some (length bytes);
    })
    else rest

module _ {P : Type 0} (produce : P → WriterMemory → P × WriterMemory × Option ℕ) where
  -- The loop of `ReaderProducer::read`, with the bytes so far and the size that remains. `none` means
  -- that the fuel ran out.
  unfoldable pub read_loop : ℕ → P → Bytes → ℕ → Option (Collected P)
  unfolding get_memory_writable after_produce
  read_loop fuel p bytes zero = some (record {
    producer = p;
    is_producer_eof = false;
    bytes = bytes;
    result = some (length bytes);
  })
  read_loop zero p bytes (suc size) = none
  read_loop (suc fuel) p bytes (suc size) =
      let (q, m, produced) = produce p (record { buffer_size = suc size; written = [] }) in
      let size_written = suc size - get_memory_writable m in
      let rest =
        read_loop fuel q (bytes ++ take size_written m.written) (suc size - size_written) in
      after_produce q bytes size_written produced rest

  -- `ReaderProducer::read`
  unfoldable pub read_produced : P → Bool → ℕ → Option (Collected P)
  unfolding read_loop
  read_produced p is_producer_eof zero =
      let (q, m, produced) = produce p (record { buffer_size = 0; written = [] }) in
      some (
        if is_producer_eof
        then record { producer = p; is_producer_eof = true; bytes = []; result = none }
        else record { producer = q; is_producer_eof = true; bytes = []; result = some 0 })
  read_produced p is_producer_eof (suc size) =
      let collected = read_loop (suc size) p [] (suc size) in
      if is_producer_eof
      then some (record { producer = p; is_producer_eof = true; bytes = []; result = none })
      else collected

-- `ProducerReader`; the buffer has `max_buffer_size` bytes.
pub record ProducerReader : Type 0 where
  pub current_buffer_size : ℕ
  pub buffer : Bytes
  pub is_reader_eof : Bool
  pub is_writer_eof : Bool

-- The part of `ProducerReader::produce` that writes, after what the writer returns.
unfoldable pub account_written : ProducerReader → Option ℕ → ProducerReader × Option ℕ
account_written c none = (record c { is_writer_eof = true }, none)
account_written c (some n) =
    let produced = if ltb c.current_buffer_size n then c.current_buffer_size else n in
    (record c { current_buffer_size = c.current_buffer_size - produced }, some produced)

module _ {R W : Type 0} (read_from : R → ℕ → R × Option ℕ × Bytes)
    (write_to : W → Bytes → W × Option ℕ) where
  unfoldable pub write_buffer : ProducerReader → W → ProducerReader × W × Option ℕ
  unfolding account_written
  write_buffer c w =
      let start = max_buffer_size - c.current_buffer_size in
      let (v, size) = write_to w (take c.current_buffer_size (drop start c.buffer)) in
      let (d, produced) = account_written c size in
      if ltb 0 c.current_buffer_size then (d, v, produced) else (c, w, some 0)

  -- `ProducerReader::produce`
  unfoldable pub produce_read : ProducerReader → R → W → ProducerReader × R × W × Option ℕ
  unfolding write_buffer
  produce_read c r w =
      let (q, consumed_size, bytes) = read_from r max_buffer_size in
      let buffer = bytes ++ drop (length bytes) c.buffer in
      let (d, v, produced) = write_buffer c w in
      if c.is_writer_eof
      then (c, r, w, none)
      else if (c.current_buffer_size == 0) && not c.is_reader_eof
      then elim consumed_size [
        | none ↦ (record c { buffer = buffer; is_reader_eof = true }, q, w, none)
        | some n ↦
            let size = if ltb max_buffer_size n then max_buffer_size else n in
            let (e, u, written) =
              write_buffer (record c { buffer = buffer; current_buffer_size = size }) w in
            (e, q, u, written)
      ]
      else (d, r, v, produced)
