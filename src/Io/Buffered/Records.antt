-- ===== src/Io/Buffered/Records.antt =====
-- The second branch of `Buffered::read` keeps what it gives.
use open_esl.Prelude.{
  concat, concat-append, refl, subst, if_false, get_or, ltb, true, false, length, ◌<◌, arith, ◌==◌,
  min, ℕ, suc, ◌≡◌, sym, ap, ◌∙◌, Option, none, some, List, [], ◌∷◌, ◌++◌, append-nil, append_assoc,
  if_cases, All, All-append, Bytes,
}
use open_esl.Io.Buffered.{
  has_cached, line_at, new_buffered, reset, read, Buffered, store_line, probe, fetch,
}
use open_esl.Io.Buffered.Replay.{read_all, replay}
use open_esl.Io.Buffered.Lines.{IsFilled}

abbrev pub bytes_of : Option Bytes → Bytes
bytes_of none = []
bytes_of (some bytes) = bytes

get_or-at_end :
    (lines : List Bytes) (line : Bytes) → get_or (lines ++ line ∷ []) (length lines) [] ≡ line
get_or-at_end [] line = refl
get_or-at_end (first ∷ lines) line = get_or-at_end lines line

-- What a step adds to the cache is what it gives, no line of it is empty, and nothing is ahead.
abbrev IsRecorded : List Bytes → Buffered × Option Bytes → Type 0
IsRecorded buffers r =
    (concat r.0.buffers ≡ concat buffers ++ bytes_of r.1)
    × All IsFilled r.0.buffers
    × (has_cached r.0 ≡ false)

nothing-IsRecorded :
    (b : Buffered) → All IsFilled b.buffers → has_cached b ≡ false → IsRecorded b.buffers (b, none)
nothing-IsRecorded b filled at_end = (sym (append-nil (concat b.buffers)), filled, at_end)

store_line-IsRecorded :
    (answered : Option Bytes) (b : Buffered)
    → All IsFilled b.buffers
    → has_cached b ≡ false
    → IsRecorded b.buffers (store_line answered b)
unfolding store_line has_cached line_at
store_line-IsRecorded none b filled at_end = nothing-IsRecorded b filled at_end
store_line-IsRecorded (some []) b filled at_end = nothing-IsRecorded b filled at_end
store_line-IsRecorded (some (c ∷ line)) b filled at_end = (
  concat-append b.buffers ((c ∷ line) ∷ [])
      ∙ ap (λ bytes. concat b.buffers ++ bytes) (append-nil (c ∷ line)),
  All-append IsFilled b.buffers ((c ∷ line) ∷ []) filled (omega arith, tt),
  ap (λ bytes. ltb (length (c ∷ line)) (length bytes)) (get_or-at_end b.buffers (c ∷ line))
      ∙ ground arith,
)

probe-IsRecorded :
    (answered : Option Bytes) (b : Buffered)
    → All IsFilled b.buffers
    → has_cached b ≡ false
    → IsRecorded b.buffers (probe answered b)
unfolding probe has_cached line_at
probe-IsRecorded none b filled at_end = nothing-IsRecorded b filled at_end
probe-IsRecorded (some bytes) b filled at_end = nothing-IsRecorded b filled at_end

fetch-IsRecorded :
    (readable : Option ℕ) (answer : ℕ → Option Bytes) (size : ℕ) (b : Buffered)
    → All IsFilled b.buffers
    → has_cached b ≡ false
    → IsRecorded b.buffers (fetch readable answer size b)
unfolding fetch
fetch-IsRecorded none answer size b filled at_end = store_line-IsRecorded _ b filled at_end
fetch-IsRecorded (some capacity) answer size b filled at_end =
    if_cases (IsRecorded b.buffers) (capacity == 0) _ _
      (λ e. probe-IsRecorded (answer 0) b filled at_end)
      (λ e. store_line-IsRecorded (answer (min capacity size)) b filled at_end)

read-IsRecorded :
    (readable : Option ℕ) (answer : ℕ → Option Bytes) (size : ℕ) (b : Buffered)
    → All IsFilled b.buffers
    → has_cached b ≡ false
    → IsRecorded b.buffers (read readable answer size b)
unfolding read
read-IsRecorded readable answer size b filled at_end =
    subst (IsRecorded b.buffers) (sym (if_false (has_cached b) _ _ at_end)) (
      if_cases (IsRecorded b.buffers) b.completed _ _ (λ e. nothing-IsRecorded b filled at_end)
        (λ e. fetch-IsRecorded readable answer size b filled at_end))

-- A call of `read`, with what the base reader would give for it.
pub record Call : Type 0 where
  pub readable : Option ℕ
  pub answer : ℕ → Option Bytes
  pub size : ℕ

-- The cache after some calls, and the bytes that they gave.
unfoldable pub run : List Call → Buffered → Buffered × Bytes
unfolding read
run [] b = (b, [])
run (call ∷ calls) b =
    let step = read call.readable call.answer call.size b in
    let rest = run calls step.0 in (rest.0, bytes_of step.1 ++ rest.1)

run-IsRecorded :
    (calls : List Call) (b : Buffered)
    → All IsFilled b.buffers
    → has_cached b ≡ false
    → IsRecorded b.buffers ((run calls b).0, some (run calls b).1)
unfolding run
run-IsRecorded [] b filled at_end = nothing-IsRecorded b filled at_end
run-IsRecorded (call ∷ calls) b filled at_end =
    let step = read call.readable call.answer call.size b in
    let (recorded, more, ended) =
      read-IsRecorded call.readable call.answer call.size b filled at_end in
    let (added, all, after) = run-IsRecorded calls step.0 more ended in
    (
      added
          ∙ ap (λ bytes. bytes ++ (run calls step.0).1) recorded
          ∙ append_assoc (concat b.buffers) (bytes_of step.1) (run calls step.0).1,
      all,
      after,
    )

-- Whatever the base reader gave for the calls of `read` since the construction, once it has come to
-- its end: after `reset`, reads of any size but 0 give just the bytes again that those calls gave,
-- and come to an end, for which as many reads as there are bytes, and one more, are enough.
pub run-replayed :
    (calls : List Call) (readable : Option ℕ) (answer : ℕ → Option Bytes) (size : ℕ)
    → (run calls new_buffered).0.completed ≡ true
    → 0 < size
    → read_all
        (suc (length (run calls new_buffered).1))
        readable
        answer
        size
        (reset (run calls new_buffered).0)
      ≡ some (run calls new_buffered).1
unfolding new_buffered has_cached line_at
run-replayed calls readable answer size done positive =
    let (recorded, filled, ended) = run-IsRecorded calls new_buffered tt refl in
    subst
      (λ bytes.
        read_all (suc (length bytes)) readable answer size (reset (run calls new_buffered).0)
        ≡ some bytes)
      recorded (replay readable answer size (run calls new_buffered).0 filled done positive)
