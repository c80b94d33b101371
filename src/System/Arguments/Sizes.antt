-- ===== src/System/Arguments/Sizes.antt =====
-- The buffer that `argumentSize` asks for, and the end of the loop over the arguments.
use open_esl.Prelude.{
  ℕ, zero, suc, ◌+◌, ◌-◌, ◌≤◌, ◌≡◌, refl, sym, some, List, [], ◌∷◌, ◌++◌, arith, length,
  length-append, Bytes,
}
use open_esl.System.Arguments.{
  skip_spaces, size_loop, argument_size, copy_loop, argument_copy, parse_loop, make, of_string,
}

loops-agree :
    (dst src : Bytes) (n : ℕ)
    → length dst ≡ n
    → ((size_loop n src).0 ≡ length (copy_loop dst src).0)
      × ((size_loop n src).1 ≡ (copy_loop dst src).1)
unfolding size_loop copy_loop
loops-agree dst [] n h = (sym h, refl)
loops-agree dst (c ∷ []) n h = ground (arith, length-append dst (c ∷ []))
loops-agree dst (c ∷ (d ∷ ds)) n h = ground (
  arith,
  length-append dst (c ∷ []),
  length-append dst (d ∷ []),
  loops-agree (dst ++ d ∷ []) ds (n + 1),
  loops-agree (dst ++ c ∷ []) (d ∷ ds) (n + 1),
)

-- `argumentCopy` writes as many characters as `argumentSize` counts, so that they and the zero
-- behind them fit a buffer of `length + 1`, and both stop at the same place of the text.
pub argument_copy-argument_size :
    (src : Bytes)
    → (length (argument_copy src).0 ≡ (argument_size src).0)
      × ((argument_copy src).1 ≡ (argument_size src).1)
unfolding argument_size argument_copy
argument_copy-argument_size src =
    (sym (loops-agree [] src 0 refl).0, sym (loops-agree [] src 0 refl).1)

skip_spaces-le : (src : Bytes) → length (skip_spaces src) ≤ length src
unfolding skip_spaces
skip_spaces-le [] = omega arith
skip_spaces-le (c ∷ cs) = ground (arith, skip_spaces-le cs)

copy_loop-le : (dst src : Bytes) → length (copy_loop dst src).1 ≤ length src - 1
unfolding copy_loop
copy_loop-le dst [] = omega arith
copy_loop-le dst (c ∷ []) = ground arith
copy_loop-le dst (c ∷ (d ∷ ds)) = ground (
  arith,
  skip_spaces-le (d ∷ ds),
  copy_loop-le (dst ++ d ∷ []) ds,
  copy_loop-le (dst ++ c ∷ []) (d ∷ ds),
)

argument_copy-le : (src : Bytes) → length (argument_copy src).1 ≤ length src - 1
unfolding argument_copy
argument_copy-le src = copy_loop-le [] src

parse_loop-total :
    (fuel : ℕ) (src : Bytes)
    → length src ≤ fuel
    → (arguments : List Bytes) × (parse_loop fuel src ≡ some arguments)
parse_loop-total fuel [] h = ([], unfold parse_loop in refl)
parse_loop-total zero (c ∷ cs) h = absurd (omega arith)
parse_loop-total (suc fuel) (c ∷ cs) h =
    let (rest, e) =
      parse_loop-total fuel (argument_copy (c ∷ cs)).1 (omega (arith, argument_copy-le (c ∷ cs))) in
    ((argument_copy (c ∷ cs)).0 ∷ rest, step rest e)
  where
    step :
        (rest : List Bytes)
        → parse_loop fuel (argument_copy (c ∷ cs)).1 ≡ some rest
        → parse_loop (suc fuel) (c ∷ cs) ≡ some ((argument_copy (c ∷ cs)).0 ∷ rest)
    step rest e = unfold parse_loop in rw (e, parse_loop)

-- The constructor from a text comes to an end on every text, with the members that belong to the
-- arguments found.
pub of_string-total :
    (args : Bytes) → (arguments : List Bytes) × (of_string args ≡ some (make args arguments))
unfolding of_string
of_string-total args =
    let (arguments, e) = parse_loop-total (length args) args (omega arith) in
    (arguments, rw (e, of_string))
