-- ===== src/Io/Input/Flush.antt =====
-- What `ConsumerWriter` hands to its writer.
use open_esl.Prelude.{
  ℕ, ◌+◌, ◌-◌, ◌*◌, ◌≤◌, ◌<◌, ◌≡◌, refl, sym, ap, ap₂, ◌∙◌, ◌⊎◌, inl, inr, Bool, false, not, ◌&&◌,
  Option, none, some, some-injective, ◌++◌, append-nil, append_assoc, arith, ltb, ◌==◌, if_cases,
  if_true, if_false, length, take, drop, Bytes, length-drop, take_all, take-append-drop, drop-drop,
  drop-append,
}
use open_esl.Io.Input.{
  account_consumed, ConsumerWriter, max_buffer_size, account_produced, flush_buffer, fill_buffer,
  consume,
}

-- The bytes that `flushBuffer` still has to write.
abbrev pub pending : ConsumerWriter → Bytes
pending c = drop (max_buffer_size - c.current_buffer_size) c.buffer

-- A writer that wrote a first part of the bytes, as long as it says, or none.
pub record Takes {W : Type 0} (written : W → Bytes) (w : W) (bytes : Bytes) (v : W)
    (result : Option ℕ) : Type 0 where
  pub amount : ℕ
  pub within : amount ≤ length bytes
  pub took : written v ≡ written w ++ take amount bytes
  pub says : (result ≡ some amount) ⊎ ((result ≡ none) × (amount ≡ 0))

pending_size :
    (c : ConsumerWriter)
    → length c.buffer ≡ max_buffer_size
    → c.current_buffer_size ≤ max_buffer_size
    → length (pending c) ≡ c.current_buffer_size
pending_size c full small =
    omega (arith, length-drop (max_buffer_size - c.current_buffer_size) c.buffer)

-- What has been written, followed by what is still to be written, is the same before and after.
abbrev pub Keeps : {W : Type 0} → (W → Bytes) → ConsumerWriter → W → ConsumerWriter × W → Type 0
Keeps written c w p =
    (written p.1 ++ pending p.0 ≡ written w ++ pending c)
    × (p.0.buffer ≡ c.buffer)
    × (p.0.current_buffer_size ≤ c.current_buffer_size)

account_produced-Keeps :
    {W : Type 0} (written : W → Bytes) (c : ConsumerWriter) (w v : W) (result : Option ℕ)
    → length c.buffer ≡ max_buffer_size
    → c.current_buffer_size ≤ max_buffer_size
    → Takes written w (pending c) v result
    → Keeps written c w (account_produced c result, v)
unfolding account_produced
account_produced-Keeps written c w v none full small t =
    let nothing : t.amount ≡ 0 = elim t.says [ inl e ↦ cc | inr e ↦ e.1 ] in
    (
      ap (λ ys. ys ++ pending c)
          (t.took ∙ ap (λ n. written w ++ take n (pending c)) nothing ∙ append-nil (written w)),
      refl,
      omega arith,
    )
account_produced-Keeps written c w v (some n) full small t =
    let all : t.amount ≡ n = elim t.says [ inl e ↦ sym (some-injective _ _ e) | inr e ↦ cc ] in
    let size = pending_size c full small in
    let left : max_buffer_size - (account_produced c (some n)).current_buffer_size
        ≡ max_buffer_size - c.current_buffer_size + n =
      ground (arith, t.within) in
    let rest : pending (account_produced c (some n)) ≡ drop n (pending c) =
      ap (λ k. drop k c.buffer) left
      ∙ sym (drop-drop (max_buffer_size - c.current_buffer_size) n c.buffer) in
    (
      ap₂ (λ xs ys. xs ++ ys) (t.took ∙ ap (λ k. written w ++ take k (pending c)) all) rest
          ∙ append_assoc (written w) _ _
          ∙ ap (λ ys. written w ++ ys) (take-append-drop n (pending c)),
      refl,
      omega arith,
    )

module _ {W : Type 0} (write_to : W → Bytes → W × Option ℕ) (written : W → Bytes)
    (takes : (w : W) (bytes : Bytes)
      → Takes written w bytes (write_to w bytes).0 (write_to w bytes).1) where
  -- With a buffer of the full size and a writer that takes a first part of the bytes and says how
  -- many, or none, `flushBuffer` loses no byte, writes none twice and keeps their order: what has
  -- been written, followed by what is still to be written, does not change.
  pub flush_buffer-Keeps :
      (c : ConsumerWriter) (w : W)
      → length c.buffer ≡ max_buffer_size
      → c.current_buffer_size ≤ max_buffer_size
      → Keeps written c w (flush_buffer write_to c w)
  unfolding flush_buffer
  flush_buffer-Keeps c w full small =
      if_cases (Keeps written c w) (ltb 0 c.current_buffer_size && not c.is_writer_eof) _ _
        (λ e.
          rw (take_all c.current_buffer_size (pending c) (omega (arith, pending_size c full small)))
            (account_produced-Keeps written c w _ _ full small (takes w (pending c))))
        (λ e. (refl, refl, omega arith))

fill_buffer_lem :
    {R : Type 0} (read_from : R → ℕ → R × Option ℕ × Bytes) (c : ConsumerWriter) (r q : R)
    (bytes : Bytes)
    → c.current_buffer_size ≡ 0
    → c.is_reader_eof ≡ false
    → read_from r max_buffer_size ≡ (q, some (length bytes), bytes)
    → length bytes ≤ max_buffer_size
    → fill_buffer read_from c r ≡ (
      record c {
        current_buffer_size = length bytes;
        buffer = bytes ++ drop (length bytes) c.buffer;
      },
      q,
    )
unfolding fill_buffer account_consumed
fill_buffer_lem {R} read_from c r q bytes empty open_reader reads small =
    if_true ((c.current_buffer_size == 0) && not c.is_reader_eof) _ _ (ground arith)
    ∙ ap (λ (x : R × Option ℕ × Bytes). (account_consumed c x.1 x.2, x.0)) reads
    ∙ rw
        (if_false (ltb max_buffer_size (length bytes)) max_buffer_size (length bytes)
          (ground arith))
        refl

flush_buffer_lem :
    {W : Type 0} (write_to : W → Bytes → W × Option ℕ) (c : ConsumerWriter) (w : W)
    → 0 < c.current_buffer_size
    → c.is_writer_eof ≡ false
    → (flush_buffer write_to c w).1 ≡ (write_to w (take c.current_buffer_size (pending c))).0
unfolding flush_buffer
flush_buffer_lem {W} write_to c w some_left open_writer =
    ap (λ (p : ConsumerWriter × W). p.1)
      (if_true (ltb 0 c.current_buffer_size && not c.is_writer_eof) _ _ (ground arith))

-- When nothing is left to write, neither the reader nor the writer has come to its end, and the
-- reader returns at least one byte and at most half of what the buffer has room for, `consume`
-- gives the writer as many bytes as were read, but the ones that stood at the end of the buffer
-- before, whatever the bytes are that were read.
pub consume_short_read :
    {R W : Type 0} (read_from : R → ℕ → R × Option ℕ × Bytes) (write_to : W → Bytes → W × Option ℕ)
    (c : ConsumerWriter) (r q : R) (w : W) (bytes : Bytes)
    → c.current_buffer_size ≡ 0
    → c.is_reader_eof ≡ false
    → c.is_writer_eof ≡ false
    → read_from r max_buffer_size ≡ (q, some (length bytes), bytes)
    → 0 < length bytes
    → 2 * length bytes ≤ max_buffer_size
    → (consume read_from write_to c r w).2
      ≡ (write_to w (take (length bytes) (drop (max_buffer_size - length bytes) c.buffer))).0
unfolding consume
consume_short_read {R} {W} read_from write_to c r q w bytes empty open_reader open_writer reads
      some_read short =
    ap (λ (x : ConsumerWriter × R × W × Bool). x.2) (if_false c.is_writer_eof _ _ open_writer)
    ∙ ap (λ (x : ConsumerWriter × R). (flush_buffer write_to x.0 w).1)
        (fill_buffer_lem read_from c r q bytes empty open_reader reads (omega arith))
    ∙ flush_buffer_lem write_to _ w some_read open_writer
    ∙ ap (λ ys. (write_to w (take (length bytes) ys)).0) old
  where
    old :
        drop (max_buffer_size - length bytes) (bytes ++ drop (length bytes) c.buffer)
        ≡ drop (max_buffer_size - length bytes) c.buffer
    old =
        drop-append bytes (drop (length bytes) c.buffer) (max_buffer_size - length bytes)
          (omega arith)
        ∙ drop-drop (length bytes) (max_buffer_size - length bytes - length bytes) c.buffer
        ∙ ap (λ k. drop k c.buffer) (omega arith)
