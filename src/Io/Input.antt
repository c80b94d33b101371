-- ===== src/Io/Input.antt =====
-- The adapters of esl/src/esl/io/Input.cpp: `ReaderMemory`, `WriterConsumer`, which gives a consumer
-- the bytes that are written to it, and `ConsumerWriter`, which writes what it consumes, as compiled
-- without `ESL_1_6`. A number of bytes of `none` stands for `npos`. The consumer, the reader and the
-- writer behind an adapter are arguments, functions on a state of their own.
pub mod Transfer
pub mod Flush
mod Tests
use open_esl.Prelude.{
  ℕ, zero, suc, ◌+◌, ◌-◌, refl, Bool, true, false, not, ◌&&◌, ◌||◌, Option, none, some, [], ◌∷◌,
  ◌++◌, ltb, leb, ◌==◌, if◌then◌else◌, length, take, drop, Bytes,
}

-- The memory of `size` bytes from `data` on, and the position in it.
pub record ReaderMemory : Type 0 where
  pub bytes : Bytes
  pub current_pos : ℕ

unfoldable pub get_size_readable : ReaderMemory → ℕ
get_size_readable r =
    if leb (length r.bytes) r.current_pos then 0 else length r.bytes - r.current_pos

-- `ReaderMemory::read`: the reader after it, what it returns, and the bytes it copies.
unfoldable pub read : ReaderMemory → ℕ → ReaderMemory × Option ℕ × Bytes
unfolding get_size_readable
read r size =
    let n = if ltb (get_size_readable r) size then get_size_readable r else size in
    if leb (length r.bytes) r.current_pos
    then (r, if length r.bytes == 0 then none else some 0, [])
    else (record r { current_pos = r.current_pos + n }, some n, take n (drop r.current_pos r.bytes))

-- What a call of `WriterConsumer::write` leaves, and what it returns.
pub record Written (S : Type 0) : Type 0 where
  pub consumer : S
  pub is_consumer_eof : Bool
  pub result : Option ℕ

module _ {S : Type 0} (consume : S → ReaderMemory → S × ReaderMemory × Bool) where
  -- The loop of `WriterConsumer::write` on the bytes behind `current_pos`. `none` means that the
  -- fuel ran out.
  unfoldable pub write_loop : ℕ → S → Bytes → ℕ → Option (Written S)
  unfolding get_size_readable
  write_loop fuel s [] current_pos =
      some (record { consumer = s; is_consumer_eof = false; result = some current_pos })
  write_loop zero s (b ∷ bs) current_pos = none
  write_loop (suc fuel) s (b ∷ bs) current_pos =
      let (t, r, more) = consume s (record { bytes = b ∷ bs; current_pos = 0 }) in
      let size_read = length (b ∷ bs) - get_size_readable r in
      let rest = write_loop fuel t (drop size_read (b ∷ bs)) (current_pos + size_read) in
      if not more
      then some (record { consumer = t; is_consumer_eof = true; result = none })
      else if size_read == 0
      then some (record { consumer = t; is_consumer_eof = false; result = some current_pos })
      else rest

  unfoldable pub write : S → Bool → Bytes → Option (Written S)
  unfolding write_loop
  write s is_consumer_eof [] =
      let (t, r, more) = consume s (record { bytes = []; current_pos = 0 }) in
      some (
        if is_consumer_eof
        then record { consumer = s; is_consumer_eof = true; result = none }
        else record { consumer = t; is_consumer_eof = not more; result = some 0 })
  write s is_consumer_eof (b ∷ bs) =
      let written = write_loop (length (b ∷ bs)) s (b ∷ bs) 0 in
      if is_consumer_eof
      then some (record { consumer = s; is_consumer_eof = true; result = none })
      else written

  -- `WriterConsumer::getSizeWritable`
  unfoldable pub get_size_writable : Bool → Option ℕ
  get_size_writable is_consumer_eof = if is_consumer_eof then some 0 else none

-- `ConsumerWriter::maxBufferSize`
abbrev pub max_buffer_size : ℕ
max_buffer_size = 4096

-- `ConsumerWriter`; the buffer has `max_buffer_size` bytes.
pub record ConsumerWriter : Type 0 where
  pub current_buffer_size : ℕ
  pub buffer : Bytes
  pub is_reader_eof : Bool
  pub is_writer_eof : Bool

-- What `flushBuffer` makes of the number of bytes that the writer returns.
unfoldable pub account_produced : ConsumerWriter → Option ℕ → ConsumerWriter
account_produced c none = record c { is_writer_eof = true }
account_produced c (some n) =
    let produced = if ltb c.current_buffer_size n then c.current_buffer_size else n in
    record c { current_buffer_size = c.current_buffer_size - produced }

module _ {W : Type 0} (write_to : W → Bytes → W × Option ℕ) where
  -- `ConsumerWriter::flushBuffer`
  unfoldable pub flush_buffer : ConsumerWriter → W → ConsumerWriter × W
  unfolding account_produced
  flush_buffer c w =
      let start = max_buffer_size - c.current_buffer_size in
      let (v, produced_size) = write_to w (take c.current_buffer_size (drop start c.buffer)) in
      if ltb 0 c.current_buffer_size && not c.is_writer_eof
      then (account_produced c produced_size, v)
      else (c, w)

-- What `consume` makes of a call of `Reader::read`, which puts bytes at the start of the buffer.
unfoldable pub account_consumed : ConsumerWriter → Option ℕ → Bytes → ConsumerWriter
account_consumed c none bytes = record c {
  buffer = bytes ++ drop (length bytes) c.buffer;
  is_reader_eof = true;
}
account_consumed c (some n) bytes = record c {
  current_buffer_size = if ltb max_buffer_size n then max_buffer_size else n;
  buffer = bytes ++ drop (length bytes) c.buffer;
}

module _ {R : Type 0} (read_from : R → ℕ → R × Option ℕ × Bytes) where
  -- The part of `ConsumerWriter::consume` that reads.
  unfoldable pub fill_buffer : ConsumerWriter → R → ConsumerWriter × R
  unfolding account_consumed
  fill_buffer c r =
      let (q, consumed_size, bytes) = read_from r max_buffer_size in
      if (c.current_buffer_size == 0) && not c.is_reader_eof
      then (account_consumed c consumed_size bytes, q)
      else (c, r)

module _ {R W : Type 0} (read_from : R → ℕ → R × Option ℕ × Bytes)
    (write_to : W → Bytes → W × Option ℕ) where
  -- `ConsumerWriter::consume`: the adapter, the reader and the writer after it, and its result.
  unfoldable pub consume : ConsumerWriter → R → W → ConsumerWriter × R × W × Bool
  unfolding fill_buffer flush_buffer
  consume c r w =
      let (filled, q) = fill_buffer read_from c r in
      let (d, v) = flush_buffer write_to filled w in
      if c.is_writer_eof
      then (c, r, w, false)
      else (d, q, v, not d.is_writer_eof && (not d.is_reader_eof || ltb 0 d.current_buffer_size))
