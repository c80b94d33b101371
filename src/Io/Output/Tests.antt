-- ===== src/Io/Output/Tests.antt =====
-- Runs of the adapters, and the theorem at a concrete input.
use open_esl.Prelude.{
  ◌||◌, ℕ, ◌≡◌, refl, inl, inr, false, Option, none, some, [], ◌∷◌, arith, ◌==◌, if◌then◌else◌,
  if_cases, Bytes,
}
use open_esl.Io.Output.{true, not, WriterMemory, write_memory, Collected, read_produced}
use open_esl.Io.Output.Collect.{Supplies, Reads, read_produced-Reads}

-- A producer that writes a byte for each call, and returns `npos` when it has none.
abbrev bytewise : Bytes → WriterMemory → Bytes × WriterMemory × Option ℕ
bytewise [] m = ([], m, none)
bytewise (b ∷ bs) m =
    if m.buffer_size == 0 then (b ∷ bs, m, some 0) else (bs, record m { written = b ∷ [] }, some 1)

bytewise-Supplies :
    (p : Bytes) (size : ℕ)
    → let r = bytewise p (record { buffer_size = size; written = [] }) in
      Supplies (λ b. b) p size r.0 r.1 r.2
bytewise-Supplies [] size = record {
  same_size = refl;
  fits = omega arith;
  next = refl;
  silent = inr refl;
}
bytewise-Supplies (b ∷ bs) size =
    if_cases (λ (r : Bytes × WriterMemory × Option ℕ). Supplies (λ b. b) (b ∷ bs) size r.0 r.1 r.2)
      (size == 0) _ _
      (λ e. record { same_size = refl; fits = omega arith; next = refl; silent = inr refl })
      (λ e. record { same_size = refl; fits = ground arith; next = refl; silent = inl (1, refl) })

read_runs :
    read_produced bytewise (1 ∷ 2 ∷ 3 ∷ []) false 2
    ≡ some
        (record { producer = 3 ∷ []; is_producer_eof = false; bytes = 1 ∷ 2 ∷ []; result = some 2 })
unfolding read_produced
read_runs = refl

write_runs :
    write_memory (record { buffer_size = 2; written = 1 ∷ [] }) (5 ∷ 6 ∷ [])
    ≡ (record { buffer_size = 2; written = 1 ∷ 5 ∷ [] }, some 1)
unfolding write_memory
write_runs = refl

read_produced-Reads_example :
    ((c : Collected Bytes) × (read_produced bytewise (1 ∷ 2 ∷ 3 ∷ []) false 2 ≡ some c)
      × Reads (λ b. b) (1 ∷ 2 ∷ 3 ∷ []) [] 2 c
      × ((c.is_producer_eof || not (2 == 0)) ≡ true))
    × (read_produced bytewise (1 ∷ 2 ∷ 3 ∷ []) true 2
        ≡ some (record {
          producer = 1 ∷ 2 ∷ 3 ∷ [];
          is_producer_eof = true;
          bytes = [];
          result = none;
        }))
read_produced-Reads_example =
    read_produced-Reads bytewise (λ b. b) bytewise-Supplies (1 ∷ 2 ∷ 3 ∷ []) 2
