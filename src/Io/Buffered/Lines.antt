-- ===== src/Io/Buffered/Lines.antt =====
-- The lines of `output::Buffered`, what of them is ahead of a position, and `next_line`.
use open_esl.Prelude.{
  concat, ℕ, zero, suc, ◌+◌, ◌≤◌, ◌<◌, ◌≡◌, refl, sym, ap, ◌∙◌, ◌⊎◌, inl, inr, true, ◌&&◌, some,
  List, [], ◌∷◌, ◌++◌, arith, ltb, leb, if_cases, length, get_or, drop, All, Bool-cases, Bytes,
}
use open_esl.Io.Buffered.{Buffered, next_line}

-- What is cached from a position of a line on.
abbrev pub ahead : ℕ → ℕ → List Bytes → Bytes
ahead i pos buffers = drop pos (get_or buffers i []) ++ concat (drop (suc i) buffers)

pub concat-drop :
    (i : ℕ) (buffers : List Bytes)
    → i < length buffers
    → concat (drop i buffers) ≡ ahead i 0 buffers
concat-drop zero [] h = absurd (omega (arith, h))
concat-drop zero (line ∷ buffers) h = refl
concat-drop (suc i) [] h = absurd (omega (arith, h))
concat-drop (suc i) (line ∷ buffers) h = concat-drop i buffers (omega (arith, h))

pub drop_all {ℓ} : {A : Type ℓ} (n : ℕ) (lines : List A) → length lines ≤ n → drop n lines ≡ []
drop_all zero [] h = refl
drop_all (suc n) [] h = refl
drop_all zero (line ∷ lines) h = absurd (omega (arith, h))
drop_all (suc n) (line ∷ lines) h = drop_all n lines (omega (arith, h))

-- Each line has bytes.
abbrev pub IsFilled : Bytes → Type 0
IsFilled line = 0 < length line

pub filled_at :
    (i : ℕ) (buffers : List Bytes)
    → All IsFilled buffers
    → i < length buffers
    → 0 < length (get_or buffers i [])
filled_at i [] filled h = absurd (omega (arith, h))
filled_at zero (line ∷ buffers) filled h = filled.0
filled_at (suc i) (line ∷ buffers) filled h = filled_at i buffers filled.1 (omega (arith, h))

-- A complete cache at a position of a line.
abbrev pub placed : List Bytes → ℕ → ℕ → Buffered
placed buffers i pos = record {
  buffers = buffers;
  current_index = some i;
  current_pos = pos;
  completed = true;
}

-- The position is in its line, or at the end of the last one.
abbrev pub IsPlaced : List Bytes → ℕ → ℕ → Type 0
IsPlaced buffers i pos =
    (i < length buffers)
    × ((pos < length (get_or buffers i []))
        ⊎ ((length (get_or buffers i []) ≤ pos) × (length buffers ≤ i + 1)))

-- A placed cache whose bytes ahead are the given ones.
abbrev pub IsAt : List Bytes → Bytes → Buffered → Type 0
IsAt buffers bytes b =
    (i : ℕ) × (pos : ℕ) × (b ≡ placed buffers i pos)
    × IsPlaced buffers i pos
    × (ahead i pos buffers ≡ bytes)

pub next_line-IsAt :
    (buffers : List Bytes) (i pos : ℕ)
    → All IsFilled buffers
    → i < length buffers
    → pos ≤ length (get_or buffers i [])
    → IsAt buffers (ahead i pos buffers) (next_line i (placed buffers i pos))
unfolding next_line
next_line-IsAt buffers i pos filled h at =
    if_cases (IsAt buffers (ahead i pos buffers))
      (leb (length (get_or buffers i [])) pos && ltb (i + 1) (length buffers)) _ _
      (λ e.
        let step : i + 1 ≡ suc i = omega arith in
        (
          i + 1,
          0,
          refl,
          (ground arith, inl (filled_at (i + 1) buffers filled (ground arith))),
          sym (concat-drop (i + 1) buffers (ground arith))
              ∙ ap (λ k. concat (drop k buffers)) step
              ∙ sym (
                  ap (λ bytes. bytes ++ concat (drop (suc i) buffers))
                    (drop_all pos (get_or buffers i []) (ground arith))),
        ))
      (λ e. (
        i,
        pos,
        refl,
        (
          h,
          elim (Bool-cases (leb (length (get_or buffers i [])) pos)) [
            | inl full ↦ inr (ground arith, ground arith)
            | inr part ↦ inl (ground arith)
          ],
        ),
        refl,
      ))
