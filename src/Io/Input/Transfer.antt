-- ===== src/Io/Input/Transfer.antt =====
-- What `ReaderMemory::read` and `WriterConsumer::write` pass on.
use open_esl.Prelude.{
  leb, Option, if_cases, ℕ, zero, suc, ◌+◌, ◌-◌, ◌≤◌, ◌≡◌, refl, sym, ap, ◌∙◌, ◌⊎◌, inl, inr, Bool,
  true, false, not, none, some, [], ◌∷◌, ◌++◌, append-nil, append_assoc, arith, ◌==◌, Bool-cases,
  if_true, if_false, length, take, drop, Bytes, take-drop_add, length-drop,
}
use open_esl.Io.Input.{read, ReaderMemory, get_size_readable, Written, write_loop, write}

-- A call of a consumer that took the bytes it received from the reader it was given, in order.
pub record Passes {S : Type 0} (received : S → Bytes) (s : S) (r : ReaderMemory) (t : S)
    (q : ReaderMemory) : Type 0 where
  pub same_memory : q.bytes ≡ r.bytes
  pub onward : r.current_pos ≤ q.current_pos
  pub inside : q.current_pos ≤ length r.bytes
  pub took :
      received t ≡ received s ++ take (q.current_pos - r.current_pos) (drop r.current_pos r.bytes)

-- `ReaderMemory::read` copies the bytes that it moves the position over.
pub read-Passes :
    (s : Bytes) (r : ReaderMemory) (size : ℕ)
    → r.current_pos ≤ length r.bytes
    → Passes (λ t. t) s r (s ++ (read r size).2) (read r size).0
unfolding read get_size_readable
read-Passes s r size h =
    if_cases (λ (x : ReaderMemory × Option ℕ × Bytes). Passes (λ t. t) s r (s ++ x.2) x.0)
      (leb (length r.bytes) r.current_pos) _ _
      (λ e. record {
        same_memory = refl;
        onward = omega arith;
        inside = h;
        took = ap (λ n. s ++ take n (drop r.current_pos r.bytes)) {x = 0} (omega arith);
      })
      (λ e. record {
        same_memory = refl;
        onward = omega arith;
        inside = ground arith;
        took = ap (λ n. s ++ take n (drop r.current_pos r.bytes)) (omega arith);
      })

-- What became of the bytes given to `write`: the first `amount` of them reached the consumer.
pub record Forwarded {S : Type 0} (received : S → Bytes) (s : S) (bytes : Bytes) (start : ℕ)
    (w : Written S) : Type 0 where
  pub amount : ℕ
  pub within : amount ≤ length bytes
  pub passed : received w.consumer ≡ received s ++ take amount bytes
  pub reported :
      (w.result ≡ some (start + amount)) ⊎ ((w.result ≡ none) × (w.is_consumer_eof ≡ true))

module _ {S : Type 0} (consume : S → ReaderMemory → S × ReaderMemory × Bool) (received : S → Bytes)
    (passes : (s : S) (r : ReaderMemory)
      → r.current_pos ≤ length r.bytes
      → Passes received s r (consume s r).0 (consume s r).1) where
  size_read_lem :
      (s : S) (bytes : Bytes)
      → let q = (consume s (record { bytes = bytes; current_pos = 0 })).1 in
        length bytes - get_size_readable q ≡ q.current_pos
  unfolding get_size_readable
  size_read_lem s bytes =
      let p = passes s (record { bytes = bytes; current_pos = 0 }) (omega arith) in
      rw p.same_memory (ground (arith, p.inside))

  write_loop-Forwarded :
      (fuel : ℕ) (s : S) (bytes : Bytes) (start : ℕ)
      → length bytes ≤ fuel
      → (w : Written S) × (write_loop consume fuel s bytes start ≡ some w)
        × Forwarded received s bytes start w
  unfolding write_loop
  write_loop-Forwarded fuel s [] start h = (
    record { consumer = s; is_consumer_eof = false; result = some start },
    refl,
    record {
      amount = 0;
      within = omega arith;
      passed = sym (append-nil (received s));
      reported = inl (ap some (omega arith));
    },
  )
  write_loop-Forwarded zero s (b ∷ bs) start h = absurd (omega arith)
  write_loop-Forwarded (suc fuel) s (b ∷ bs) start h =
      let c = consume s (record { bytes = b ∷ bs; current_pos = 0 }) in
      let p = passes s (record { bytes = b ∷ bs; current_pos = 0 }) (omega arith) in
      let size = size_read_lem s (b ∷ bs) in
      let taken : received c.0 ≡ received s ++ take c.1.current_pos (b ∷ bs) =
        p.took ∙ ap (λ n. received s ++ take n (b ∷ bs)) (omega arith) in
      elim (Bool-cases (not c.2)) [
        | inl e ↦ (
          record { consumer = c.0; is_consumer_eof = true; result = none },
          if_true (not c.2) _ _ e,
          record {
            amount = c.1.current_pos;
            within = p.inside;
            passed = taken;
            reported = inr (refl, refl);
          },
        )
        | inr e ↦ elim (Bool-cases (c.1.current_pos == 0)) [
          | inl z ↦ (
            record { consumer = c.0; is_consumer_eof = false; result = some start },
            if_false (not c.2) _ _ e ∙ rw (size, z) refl,
            record {
              amount = c.1.current_pos;
              within = p.inside;
              passed = taken;
              reported = inl (ap some (ground arith));
            },
          )
          | inr z ↦
              let next =
                write_loop-Forwarded fuel c.0 (drop c.1.current_pos (b ∷ bs))
                  (start + c.1.current_pos)
                  (ground (arith, length-drop c.1.current_pos (b ∷ bs))) in
              (
                next.0,
                if_false (not c.2) _ _ e ∙ rw (size, z) next.1,
                record {
                  amount = c.1.current_pos + next.2.amount;
                  within =
                      omega (arith, next.2.within, length-drop c.1.current_pos (b ∷ bs), p.inside);
                  passed =
                      next.2.passed
                      ∙ ap (λ ys. ys ++ take next.2.amount (drop c.1.current_pos (b ∷ bs))) taken
                      ∙ append_assoc (received s) _ _
                      ∙ ap (λ ys. received s ++ ys)
                          (sym (take-drop_add c.1.current_pos next.2.amount (b ∷ bs)));
                  reported = elim next.2.reported [
                    | inl r ↦ inl (r ∙ ap some (omega arith))
                    | inr r ↦ inr r
                  ];
                },
              )
        ]
      ]

  -- Writing to a consumer that reads what it is given, and that has not asked to stop, comes to an
  -- end on every list of bytes: a first part of it reaches the consumer, once and in order, and the
  -- size of this part is returned; or the consumer asked to stop, which is returned and remembered.
  pub write-Forwarded :
      (s : S) (bytes : Bytes)
      → (w : Written S) × (write consume s false bytes ≡ some w) × Forwarded received s bytes 0 w
  unfolding write
  write-Forwarded s [] =
      let p = passes s (record { bytes = []; current_pos = 0 }) (omega arith) in
      let q = consume s (record { bytes = []; current_pos = 0 }) in
      (
        record { consumer = q.0; is_consumer_eof = not q.2; result = some 0 },
        refl,
        record {
          amount = 0;
          within = omega arith;
          passed = p.took ∙ ap (λ n. received s ++ take n []) {y = 0} (omega (arith, p.inside));
          reported = inl (ap some (omega arith));
        },
      )
  write-Forwarded s (b ∷ bs) = write_loop-Forwarded (length (b ∷ bs)) s (b ∷ bs) 0 (omega arith)
