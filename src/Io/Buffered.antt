-- ===== src/Io/Buffered.antt =====
-- `output::Buffered` of features/common4esl/src/esl/io/output/Buffered.cpp, a reader that keeps what
-- it has read for another pass. The base reader is a parameter of each call: `readable` is its
-- `getSizeReadable`, and `answer` what its `read` gives for a capacity, not more than that. `none`
-- stands for `npos`.
pub mod Lines
pub mod Replay
pub mod Records
mod Tests
use open_esl.Prelude.{
  min, ℕ, zero, suc, ◌+◌, ◌-◌, ◌*◌, ◌/◌, ◌%◌, ◌^◌, ◌≤◌, ◌<◌, ◌≡◌, refl, sym, ap, ap₂, subst, ◌∙◌,
  ◌≡⟨◌⟩◌, ◌∎, ◌≢◌, ◌⊎◌, inl, inr, Bool, true, false, not, ◌&&◌, ◌||◌, Option, none, some,
  some-injective, List, [], ◌∷◌, ◌++◌, map, reverse, append-nil, append_assoc, reverse-append,
  reverse-reverse, reverse-cons, arith, ltb, leb, ◌==◌, if◌then◌else◌, ltb→lt, lt→ltb, ==_iff,
  ==-refl, Bool-cases, Option-cases, if_cases, if_true, if_false, length, is_empty, get_elem?,
  get_or, take, drop, replicate, All, length-append, All-append, All-imp, get_elem?-append_left,
  get_elem?-append_at, Bytes, IsByte, bytes_eq, bytes_eq_refl, bytes_eq_sound, table_passes,
  table_passes_entry, take-drop_add, length-drop, take_all, take-append-drop, drop-drop,
  drop-append,
}

pub record Buffered : Type 0 where
  pub buffers : List Bytes
  pub current_index : Option ℕ
  pub current_pos : ℕ
  pub completed : Bool

unfoldable pub new_buffered : Buffered
new_buffered = record { buffers = []; current_index = none; current_pos = 0; completed = false }

abbrev pub prefetch_size : ℕ
prefetch_size = 4096

-- `*buffers[currentIndex]`, and the empty line if there is none.
unfoldable pub line_at : Option ℕ → List Bytes → Bytes
line_at none buffers = []
line_at (some i) buffers = get_or buffers i []

-- The test at the start of `read` and of `getSizeReadable`.
unfoldable pub has_cached : Buffered → Bool
unfolding line_at
has_cached b = ltb b.current_pos (length (line_at b.current_index b.buffers))

-- `currentPos` and `currentIndex` at the end of a line that others follow.
unfoldable pub next_line : ℕ → Buffered → Buffered
next_line i b =
    if leb (length (get_or b.buffers i [])) b.current_pos && ltb (i + 1) (length b.buffers)
    then record b { current_pos = 0; current_index = some (i + 1) }
    else b

-- The first branch of `read`, for the line at an index.
unfoldable pub read_cached : ℕ → ℕ → Buffered → Buffered × Option Bytes
unfolding next_line
read_cached size i b =
    let line = get_or b.buffers i [] in
    let count = min size (length line - b.current_pos) in
    (
      next_line i (record b { current_pos = b.current_pos + count }),
      some (take count (drop b.current_pos line)),
    )

-- The second branch from the call of `read` of the base reader on, by what that gives.
unfoldable pub store_line : Option Bytes → Buffered → Buffered × Option Bytes
store_line none b = (record b { completed = true }, none)
store_line (some []) b = (b, some [])
store_line (some (c ∷ line)) b = (
  record b {
    buffers = b.buffers ++ (c ∷ line) ∷ [];
    current_index = some (length b.buffers);
    current_pos = length (c ∷ line);
  },
  some (c ∷ line),
)

-- The second branch when the base reader has nothing to read: whether it is at its end.
unfoldable pub probe : Option Bytes → Buffered → Buffered × Option Bytes
probe none b = (record b { completed = true }, some [])
probe (some bytes) b = (b, some [])

unfoldable pub fetch : Option ℕ → (ℕ → Option Bytes) → ℕ → Buffered → Buffered × Option Bytes
unfolding store_line probe
fetch none answer size b = store_line (answer (min prefetch_size size)) b
fetch (some capacity) answer size b =
    if capacity == 0 then probe (answer 0) b else store_line (answer (min capacity size)) b

unfoldable pub read : Option ℕ → (ℕ → Option Bytes) → ℕ → Buffered → Buffered × Option Bytes
unfolding has_cached read_cached fetch
read readable answer size b =
    let uncached = if b.completed then (b, none) else fetch readable answer size b in
    if has_cached b
    then elim b.current_index [ none ↦ uncached | some i ↦ read_cached size i b ]
    else uncached

unfoldable pub get_size_readable : Option ℕ → Buffered → Option ℕ
unfolding has_cached line_at
get_size_readable readable b =
    if has_cached b
    then some (length (line_at b.current_index b.buffers) - b.current_pos)
    else if b.completed
    then some 0
    else readable

unfoldable pub has_size : Buffered → Bool
has_size b = not b.completed

unfoldable pub sizes : List Bytes → ℕ
sizes [] = 0
sizes (line ∷ buffers) = length line + sizes buffers

unfoldable pub get_size : Buffered → Option ℕ
unfolding sizes
get_size b = if b.completed then some (sizes b.buffers) else none

unfoldable pub reset : Buffered → Buffered
reset b = record b { current_index = if is_empty b.buffers then none else some 0; current_pos = 0 }
