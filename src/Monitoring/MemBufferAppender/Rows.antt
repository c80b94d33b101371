-- ===== src/Monitoring/MemBufferAppender/Rows.antt =====
-- The rows of the ring from the consumer on.
use open_esl.Prelude.{
  ℕ, zero, suc, ◌+◌, ◌-◌, ◌%◌, ◌≤◌, ◌<◌, ◌≡◌, refl, sym, ap, ap₂, ◌∙◌, List, [], ◌∷◌, ◌++◌, arith,
  leb, ◌==◌, if◌then◌else◌, if_cases, if_true, if_false, length, length-append,
}
use native.Mathlib.Nat.{mod-eq_of_lt, mod_self}
use open_esl.Monitoring.MemBufferAppender.{Entry, Appender, next_row, assign, flush_loop}

-- The row that is `j` behind `first`, where `n` is the last row.
abbrev pub row_at : ℕ → ℕ → ℕ → ℕ
row_at n first j = if leb (first + j) n then first + j else first + j - (n + 1)

next_row_lem : (n i : ℕ) → i ≤ n → next_row n i ≡ (if i == n then 0 else i + 1)
unfolding next_row
next_row_lem n i h =
    if_cases (λ r. (i + 1) % (n + 1) ≡ r) (i == n) 0 (i + 1)
      (λ e. ap (λ j. (j + 1) % (n + 1)) (ground (arith, e)) ∙ mod_self (n + 1))
      (λ e. mod-eq_of_lt (ground (arith, e, h)))

pub next_row-row_at :
    (n first j : ℕ) → first ≤ n → j ≤ n → next_row n (row_at n first j) ≡ row_at n first (suc j)
next_row-row_at n first j h k =
    next_row_lem n (row_at n first j) (ground (arith, h, k)) ∙ ground (arith, h, k)

-- The entries of `d` rows from `first` on.
abbrev pub gather : ℕ → (ℕ → Entry) → ℕ → ℕ → List Entry
gather n entries first zero = []
gather n entries first (suc d) = gather n entries first d ++ entries (row_at n first d) ∷ []

pub length-gather :
    (n : ℕ) (entries : ℕ → Entry) (first d : ℕ) → length (gather n entries first d) ≡ d
length-gather n entries first zero = refl
length-gather n entries first (suc d) = omega (
  arith,
  length-append (gather n entries first d) (entries (row_at n first d) ∷ []),
  length-gather n entries first d,
)

-- A change of a row behind these changes none of them.
pub gather-assign :
    (n : ℕ) (entries : ℕ → Entry) (first d e : ℕ) (x : Entry)
    → first ≤ n
    → d ≤ e
    → e ≤ n
    → gather n (assign (row_at n first e) x entries) first d ≡ gather n entries first d
gather-assign n entries first zero e x h k l = refl
gather-assign n entries first (suc d) e x h k l =
    ap₂ (λ xs y. xs ++ y ∷ []) (gather-assign n entries first d e x h (omega (arith, k)) l)
      (if_false (row_at n first d == row_at n first e) x (entries (row_at n first d))
        (ground (arith, h, k, l)))

-- The first of the rows, and the others.
pub gather-next :
    (n : ℕ) (entries : ℕ → Entry) (first d : ℕ)
    → first ≤ n
    → d ≤ n
    → gather n entries first (suc d) ≡ entries first ∷ gather n entries (row_at n first 1) d
gather-next n entries first zero h k = ap (λ i. entries i ∷ []) (ground (arith, h))
gather-next n entries first (suc d) h k =
    ap₂ (λ xs i. xs ++ entries i ∷ []) (gather-next n entries first d h (omega (arith, k)))
      (ground (arith, h, k))

-- The loop of `flush` collects the rows from the consumer to the producer.
pub flush_loop-gather :
    (a : Appender) (fuel d j : ℕ)
    → a.row_consumer ≤ a.max_lines
    → j + d ≤ a.max_lines
    → d < fuel
    → a.row_producer ≡ row_at a.max_lines a.row_consumer (j + d)
    → flush_loop fuel
        (row_at a.max_lines a.row_consumer j)
        (gather a.max_lines a.entries a.row_consumer j)
        a
      ≡ gather a.max_lines a.entries a.row_consumer (j + d)
unfolding flush_loop
flush_loop-gather a zero d j h k l e = absurd (omega (arith, l))
flush_loop-gather a (suc fuel) zero j h k l e =
    let size : j ≡ j + 0 = omega arith in
    if_true (row_at a.max_lines a.row_consumer j == a.row_producer) _ _ (ground (arith, e))
    ∙ ap (gather a.max_lines a.entries a.row_consumer) size
flush_loop-gather a (suc fuel) (suc d) j h k l e =
    let size : suc j + d ≡ j + suc d = omega arith in
    if_false (row_at a.max_lines a.row_consumer j == a.row_producer) _ _ (ground (arith, e, h, k))
    ∙ ap (λ i. flush_loop fuel i (gather a.max_lines a.entries a.row_consumer (suc j)) a)
        (next_row-row_at a.max_lines a.row_consumer j h (omega (arith, k)))
    ∙ flush_loop-gather a fuel d (suc j) h (omega (arith, k)) (omega (arith, l))
        (e ∙ ap (row_at a.max_lines a.row_consumer) (sym size))
    ∙ ap (gather a.max_lines a.entries a.row_consumer) size
