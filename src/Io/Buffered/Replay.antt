-- ===== src/Io/Buffered/Replay.antt =====
-- What was read is read again after `reset`.
use open_esl.Prelude.{
  concat, ℕ, zero, suc, ◌+◌, ◌-◌, ◌≤◌, ◌<◌, ◌≡◌, refl, subst, sym, ap, ap₂, ◌∙◌, inl, inr, min,
  Bool, true, false, Option, none, some, List, [], ◌∷◌, ◌++◌, append_assoc, arith, ltb, lt→ltb,
  if_true, if_false, length, get_or, take, drop, All, length-append, Bytes, take-append-drop,
  drop-drop, length-drop,
}
use open_esl.Io.Buffered.{Buffered, line_at, has_cached, read_cached, read, reset}
use open_esl.Io.Buffered.Lines.{ahead, drop_all, IsFilled, placed, IsAt, next_line-IsAt}

length-take : (n : ℕ) (bytes : Bytes) → n ≤ length bytes → length (take n bytes) ≡ n
length-take n bytes h = omega (
  arith,
  h,
  length-append (take n bytes) (drop n bytes),
  ap length (take-append-drop n bytes),
  length-drop n bytes,
)

taken :
    (n pos : ℕ) (line rest : Bytes)
    → take n (drop pos line) ++ (drop (pos + n) line ++ rest) ≡ drop pos line ++ rest
taken n pos line rest =
    sym (append_assoc (take n (drop pos line)) (drop (pos + n) line) rest)
    ∙ ap (λ tail. (take n (drop pos line) ++ tail) ++ rest) (sym (drop-drop pos n line))
    ∙ ap (λ bytes. bytes ++ rest) (take-append-drop n (drop pos line))

-- A step of reading: some bytes, and what is ahead after them.
abbrev IsStep : List Bytes → Bytes → Buffered × Option Bytes → Type 0
IsStep buffers bytes r =
    (out : Bytes) × (rest : Bytes) × (r.1 ≡ some out)
    × IsAt buffers rest r.0
    × (out ++ rest ≡ bytes)
    × (0 < length out)

read_cached-IsStep :
    (buffers : List Bytes) (i pos size : ℕ)
    → All IsFilled buffers
    → i < length buffers
    → pos < length (get_or buffers i [])
    → 0 < size
    → IsStep buffers (ahead i pos buffers) (read_cached size i (placed buffers i pos))
unfolding read_cached
read_cached-IsStep buffers i pos size filled h at positive =
    let line = get_or buffers i [] in
    let count = min size (length line - pos) in
    (
      take count (drop pos line),
      ahead i (pos + count) buffers,
      refl,
      next_line-IsAt buffers i (pos + count) filled h (omega arith),
      taken count pos line (concat (drop (suc i) buffers)),
      omega (arith, length-take count (drop pos line) (omega (arith, length-drop pos line))),
    )

-- Reads of a size until there is none, within fuel, and their bytes.
abbrev pub joined : Option Bytes → Option Bytes → Option Bytes
joined none rest = some []
joined (some out) none = none
joined (some out) (some bytes) = some (out ++ bytes)

unfoldable pub read_all : ℕ → Option ℕ → (ℕ → Option Bytes) → ℕ → Buffered → Option Bytes
unfolding read
read_all zero readable answer size b = none
read_all (suc fuel) readable answer size b =
    let step = read readable answer size b in
    let rest = read_all fuel readable answer size step.0 in joined step.1 rest

read-IsStep :
    (readable : Option ℕ) (answer : ℕ → Option Bytes) (buffers : List Bytes) (i pos size : ℕ)
    → All IsFilled buffers
    → i < length buffers
    → pos < length (get_or buffers i [])
    → 0 < size
    → IsStep buffers (ahead i pos buffers) (read readable answer size (placed buffers i pos))
unfolding read has_cached line_at
read-IsStep readable answer buffers i pos size filled h at positive =
    subst (IsStep buffers (ahead i pos buffers))
      (sym (if_true (ltb pos (length (get_or buffers i []))) _ _ (lt→ltb pos _ at)))
      (read_cached-IsStep buffers i pos size filled h at positive)

read_done :
    (readable : Option ℕ) (answer : ℕ → Option Bytes) (buffers : List Bytes) (i pos size : ℕ)
    → length (get_or buffers i []) ≤ pos
    → read readable answer size (placed buffers i pos) ≡ (placed buffers i pos, none)
unfolding read has_cached line_at
read_done readable answer buffers i pos size h =
    if_false (ltb pos (length (get_or buffers i []))) _ _ (ground arith)

-- From a place on, enough fuel gives the bytes ahead.
read_all-IsAt :
    (fuel : ℕ) (readable : Option ℕ) (answer : ℕ → Option Bytes) (size : ℕ) (buffers : List Bytes)
    (bytes : Bytes) (b : Buffered)
    → All IsFilled buffers
    → 0 < size
    → IsAt buffers bytes b
    → length bytes < fuel
    → read_all fuel readable answer size b ≡ some bytes
unfolding read_all
read_all-IsAt zero readable answer size buffers bytes b filled positive at h = absurd (omega arith)
read_all-IsAt (suc fuel) readable answer size buffers bytes b filled positive
      (i, pos, same, (inside, inl part), all) h =
    let step : IsStep buffers bytes (read readable answer size b) =
      subst (λ bs. IsStep buffers bs (read readable answer size b)) all
        (subst (λ c. IsStep buffers (ahead i pos buffers) (read readable answer size c)) (sym same)
          (read-IsStep readable answer buffers i pos size filled inside part positive)) in
    let (out, rest, answered, at, split, progress) = step in
    let again =
      read_all-IsAt fuel readable answer size buffers rest (read readable answer size b).0 filled
        positive at (omega (arith, length-append out rest, ap length split, h, progress)) in
    ap₂ joined answered again ∙ ap some split
read_all-IsAt (suc fuel) readable answer size buffers bytes b filled positive
      (i, pos, same, (inside, inr (full, last)), all) h =
    let rest = read_all fuel readable answer size (read readable answer size b).0 in
    let nothing : ahead i pos buffers ≡ [] =
      ap₂ (λ bs lines. bs ++ concat lines) (drop_all pos (get_or buffers i []) full)
        (drop_all (suc i) buffers (omega (arith, last))) in
    ap (λ r. joined r.1 rest)
      (ap (read readable answer size) same ∙ read_done readable answer buffers i pos size full)
    ∙ ap some (sym nothing ∙ all)

replay_lines :
    (readable : Option ℕ) (answer : ℕ → Option Bytes) (size : ℕ) (buffers : List Bytes)
    (current : Option ℕ) (pos : ℕ) (completed : Bool)
    → All IsFilled buffers
    → completed ≡ true
    → 0 < size
    → read_all (suc (length (concat buffers))) readable answer size (
        reset (record {
          buffers = buffers;
          current_index = current;
          current_pos = pos;
          completed = completed;
        }))
      ≡ some (concat buffers)
unfolding read_all read has_cached line_at reset
replay_lines readable answer size buffers current pos false filled done positive = cc
replay_lines readable answer size [] current pos true filled done positive = refl
replay_lines readable answer size (line ∷ lines) current pos true filled done positive =
    read_all-IsAt (suc (length (concat (line ∷ lines)))) readable answer size (line ∷ lines)
      (concat (line ∷ lines)) _ filled positive (0, 0, refl, (omega arith, inl filled.0), refl)
      (omega arith)

-- After `reset`, a complete cache whose lines are not empty gives all its bytes again, by reads of
-- any size but 0; its length and one more read are enough to come to the end.
pub replay :
    (readable : Option ℕ) (answer : ℕ → Option Bytes) (size : ℕ) (b : Buffered)
    → All IsFilled b.buffers
    → b.completed ≡ true
    → 0 < size
    → read_all (suc (length (concat b.buffers))) readable answer size (reset b)
      ≡ some (concat b.buffers)
replay readable answer size b filled done positive =
    replay_lines readable answer size b.buffers b.current_index b.current_pos b.completed filled
      done positive
