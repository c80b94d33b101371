-- ===== src/Io/Output/Collect.antt =====
-- What `ReaderProducer::read` collects.
use open_esl.Prelude.{
  not, ◌||◌, ℕ, zero, suc, ◌-◌, ◌≤◌, ◌≡◌, refl, sym, ap, ◌∙◌, ◌⊎◌, inl, inr, Bool, true, false,
  Option, none, some, [], ◌∷◌, ◌++◌, append-nil, append_assoc, arith, ◌==◌, Bool-cases, if_true,
  if_false, length, length-append, Bytes, take_all,
}
use open_esl.Io.Output.{
  WriterMemory, get_memory_writable, Collected, after_produce, read_loop, read_produced,
}

-- A call of a producer that wrote the next of the bytes it has left to the memory it was given, and
-- none when it returned `npos`.
pub record Supplies {P : Type 0} (left : P → Bytes) (p : P) (size : ℕ) (q : P) (m : WriterMemory)
    (produced : Option ℕ) : Type 0 where
  pub same_size : m.buffer_size ≡ size
  pub fits : length m.written ≤ size
  pub next : left p ≡ m.written ++ left q
  pub silent : ((n : ℕ) × (produced ≡ some n)) ⊎ (m.written ≡ [])

-- The bytes collected are the next ones of the producer, `size` of them at most.
pub record Reads {P : Type 0} (left : P → Bytes) (p : P) (before : Bytes) (size : ℕ)
    (c : Collected P) : Type 0 where
  pub more : Bytes
  pub collected : c.bytes ≡ before ++ more
  pub within : length more ≤ size
  pub next : left p ≡ more ++ left c.producer
  pub reported : c.result ≡ some (length c.bytes)

length_zero : (xs : Bytes) → length xs ≡ 0 → xs ≡ []
length_zero [] h = refl
length_zero (x ∷ xs) h = absurd (omega arith)

Reads-none :
    {P : Type 0} (left : P → Bytes) (p q : P) (bytes : Bytes) (size : ℕ) (eof : Bool)
    → left p ≡ left q
    → Reads left p bytes size (record {
      producer = q;
      is_producer_eof = eof;
      bytes = bytes;
      result = some (length bytes);
    })
Reads-none left p q bytes size eof h = record {
  more = [];
  collected = sym (append-nil bytes);
  within = omega arith;
  next = h;
  reported = refl;
}

-- A round in which the producer wrote nothing is the last.
stalled_round :
    {P : Type 0} (left : P → Bytes) (p q : P) (bytes : Bytes) (size n : ℕ) (m : WriterMemory)
    (rest : Option (Collected P))
    → Supplies left p size q m (some n)
    → length m.written ≡ 0
    → (c : Collected P) × (after_produce q bytes (length m.written) (some n) rest ≡ some c)
      × Reads left p bytes size c
unfolding after_produce
stalled_round left p q bytes size n m rest s z = (
  record { producer = q; is_producer_eof = false; bytes = bytes; result = some (length bytes) },
  if_true (length m.written == 0) _ _ (ground arith),
  Reads-none left p q bytes size false (s.next ∙ ap (λ xs. xs ++ left q) (length_zero m.written z)),
)

-- What a round yields, from what the rounds after it yield.
after_produce_lem :
    {P : Type 0} (left : P → Bytes) (p q : P) (bytes : Bytes) (size : ℕ) (m : WriterMemory)
    (produced : Option ℕ) (rest : Option (Collected P))
    → Supplies left p size q m produced
    → ((c : Collected P) × (rest ≡ some c)
        × Reads left q (bytes ++ m.written) (size - length m.written) c)
      ⊎ (length m.written ≡ 0)
    → (c : Collected P) × (after_produce q bytes (length m.written) produced rest ≡ some c)
      × Reads left p bytes size c
unfolding after_produce
after_produce_lem left p q bytes size m none rest s r = (
  record { producer = q; is_producer_eof = true; bytes = bytes; result = some (length bytes) },
  refl,
  Reads-none left p q bytes size true
      (s.next ∙ ap (λ xs. xs ++ left q) {y = []} (elim s.silent [ inl h ↦ cc | inr h ↦ h ])),
)
after_produce_lem left p q bytes size m (some n) rest s (inr z) =
    stalled_round left p q bytes size n m rest s z
after_produce_lem left p q bytes size m (some n) rest s (inl (c, e, r)) =
    elim (Bool-cases (length m.written == 0)) [
      | inl z ↦ stalled_round left p q bytes size n m rest s (ground arith)
      | inr z ↦ (
        c,
        if_false (length m.written == 0) _ _ z ∙ e,
        record {
          more = m.written ++ r.more;
          collected = r.collected ∙ append_assoc bytes m.written r.more;
          within = omega (arith, length-append m.written r.more, r.within, s.fits);
          next =
              s.next
              ∙ ap (λ xs. m.written ++ xs) r.next
              ∙ sym (append_assoc m.written r.more (left c.producer));
          reported = r.reported;
        },
      )
    ]

module _ {P : Type 0} (produce : P → WriterMemory → P × WriterMemory × Option ℕ) (left : P → Bytes)
    (supplies : (p : P) (size : ℕ)
      → let r = produce p (record { buffer_size = size; written = [] }) in
        Supplies left p size r.0 r.1 r.2) where
  size_written_lem :
      (p : P) (size : ℕ)
      → let m = (produce p (record { buffer_size = size; written = [] })).1 in
        size - get_memory_writable m ≡ length m.written
  unfolding get_memory_writable
  size_written_lem p size = let s = supplies p size in omega (arith, s.same_size, s.fits)

  read_loop-Reads :
      (fuel : ℕ) (p : P) (bytes : Bytes) (size : ℕ)
      → size ≤ fuel
      → (c : Collected P) × (read_loop produce fuel p bytes size ≡ some c)
        × Reads left p bytes size c
  unfolding read_loop
  read_loop-Reads fuel p bytes zero h = (
    record { producer = p; is_producer_eof = false; bytes = bytes; result = some (length bytes) },
    refl,
    Reads-none left p p bytes 0 false refl,
  )
  read_loop-Reads zero p bytes (suc size) h = absurd (omega arith)
  read_loop-Reads (suc fuel) p bytes (suc size) h =
      let r = produce p (record { buffer_size = suc size; written = [] }) in
      let s = supplies p (suc size) in
      rw (size_written_lem p (suc size), take_all (length r.1.written) r.1.written (omega arith))
        (after_produce_lem left p r.0 bytes (suc size) r.1 r.2 _ s
          (elim (Bool-cases (length r.1.written == 0)) [
            | inl z ↦ inr (ground arith)
            | inr z ↦ inl (
                read_loop-Reads fuel r.0 (bytes ++ r.1.written) (suc size - length r.1.written)
                  (ground arith))
          ]))

  read_produced-empty :
      (p : P)
      → (c : Collected P) × (read_produced produce p false 0 ≡ some c)
        × Reads left p [] 0 c
        × (c.is_producer_eof ≡ true)
  unfolding read_produced
  read_produced-empty p =
      let r = produce p (record { buffer_size = 0; written = [] }) in
      let s = supplies p 0 in
      (
        record { producer = r.0; is_producer_eof = true; bytes = []; result = some 0 },
        refl,
        Reads-none left p r.0 [] 0 true
            (s.next ∙ ap (λ xs. xs ++ left r.0) (length_zero r.1.written (omega (arith, s.fits)))),
        refl,
      )

  -- Reading from a producer that writes the next of its bytes to the memory it is given, and none
  -- when it returns `npos`, comes to an end for every size, 0 included: the bytes collected are at
  -- most as many as asked for, they are the next ones of the producer, and none is lost. A read of
  -- size 0 marks the end of the producer, whether it is at its end or not, and once the end is
  -- marked, each read gives no byte and `npos` and leaves the producer alone.
  pub read_produced-Reads :
      (p : P) (size : ℕ)
      → ((c : Collected P) × (read_produced produce p false size ≡ some c)
          × Reads left p [] size c
          × ((c.is_producer_eof || not (size == 0)) ≡ true))
        × (read_produced produce p true size
            ≡ some (record { producer = p; is_producer_eof = true; bytes = []; result = none }))
  unfolding read_produced
  read_produced-Reads p zero =
      let (c, e, r, marked) = read_produced-empty p in
      ((c, e, r, ap (λ eof. eof || false) marked), refl)
  read_produced-Reads p (suc size) =
      let (c, e, r) = read_loop-Reads (suc size) p [] (suc size) (omega arith) in
      ((c, e, r, ground arith), refl)
