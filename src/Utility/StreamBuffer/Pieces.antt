-- ===== src/Utility/StreamBuffer/Pieces.antt =====
-- What the handler is given, taken together, is what was written.
use open_esl.Prelude.{
  concat, if_cases, append_assoc, ◌∙◌, sym, ap, All-append, subst, ℕ, ◌≡◌, refl, ap₂, Bool, true,
  false, not, ◌&&◌, List, [], ◌∷◌, ◌++◌, arith, ◌==◌, if◌then◌else◌, All, Bytes,
}
use open_esl.Utility.StreamBuffer.{newline, sync_loop}

-- No byte but the last one is a line break, and there is one byte at least.
unfoldable pub is_line : Bytes → Bool
is_line [] = false
is_line (c ∷ []) = true
is_line (c ∷ d ∷ rest) = not (c == newline) && is_line (d ∷ rest)

abbrev pub IsLine : Bytes → Type 0
IsLine bytes = is_line bytes ≡ true

abbrev pub IsInner : ℕ → Type 0
IsInner c = (c == newline) ≡ false

IsLine-inner : (piece : Bytes) (c : ℕ) → All IsInner piece → IsLine (piece ++ c ∷ [])
unfolding is_line
IsLine-inner [] c inner = refl
IsLine-inner (d ∷ []) c inner = ground arith
IsLine-inner (d ∷ e ∷ piece) c inner =
    ap₂ (λ b e. not b && e) inner.0 (IsLine-inner (e ∷ piece) c inner.1)

inner-IsLine : (c : ℕ) (piece : Bytes) → All IsInner (c ∷ piece) → IsLine (c ∷ piece)
unfolding is_line
inner-IsLine c [] inner = refl
inner-IsLine c (d ∷ piece) inner = ap₂ (λ b e. not b && e) inner.0 (inner-IsLine d piece inner.1)

-- Calls of the handler that are whole lines or parts of one, for the bytes together.
abbrev pub IsGiven : Bytes → List Bytes → Type 0
IsGiven bytes calls = (concat calls ≡ bytes) × All IsLine calls

sync_loop_lem :
    (piece : Bytes) (c : ℕ) (rest : Bytes)
    → sync_loop piece (c ∷ rest) ≡ (
        if c == newline
        then (piece ++ c ∷ []) ∷ sync_loop [] rest
        else sync_loop (piece ++ c ∷ []) rest)
unfolding sync_loop
sync_loop_lem [] c rest = refl
sync_loop_lem (d ∷ piece) c rest = refl

pub sync_loop-IsGiven :
    (piece rest : Bytes) → All IsInner piece → IsGiven (piece ++ rest) (sync_loop piece rest)
unfolding sync_loop
sync_loop-IsGiven [] [] inner = (refl, tt)
sync_loop-IsGiven (c ∷ piece) [] inner = (refl, (inner-IsLine c piece inner, tt))
sync_loop-IsGiven piece (c ∷ rest) inner =
    subst (IsGiven (piece ++ c ∷ rest)) (sym (sync_loop_lem piece c rest)) (
      if_cases (IsGiven (piece ++ c ∷ rest)) (c == newline) _ _
        (λ e.
          let (given, lines) = sync_loop-IsGiven [] rest tt in
          (
            append_assoc piece (c ∷ []) (concat (sync_loop [] rest))
                ∙ ap (λ bytes. piece ++ c ∷ bytes) given,
            (IsLine-inner piece c inner, lines),
          ))
        (λ e.
          subst (λ bytes. IsGiven bytes (sync_loop (piece ++ c ∷ []) rest))
            (append_assoc piece (c ∷ []) rest)
            (sync_loop-IsGiven (piece ++ c ∷ []) rest
              (All-append IsInner piece (c ∷ []) inner (e, tt)))))
