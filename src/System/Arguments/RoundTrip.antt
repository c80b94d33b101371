-- ===== src/System/Arguments/RoundTrip.antt =====
-- Arguments written with their spaces and backslashes escaped, and without.
use open_esl.Prelude.{
  ℕ, zero, suc, ◌+◌, ◌≤◌, ◌≡◌, refl, sym, ap, subst, ◌∙◌, inl, inr, Bool, false, ◌||◌, some, List,
  [], ◌∷◌, ◌++◌, map, append-nil, append_assoc, arith, ◌==◌, if◌then◌else◌, Bool-cases, length, All,
  length-append, Bytes,
}
use open_esl.System.Arguments.{
  skip_spaces, copy_loop, argument_copy, parse_loop, make, join_args, of_string, of_argv,
}

abbrev needs_escape : ℕ → Bool
needs_escape c = c == b' ' || c == b'\\'

-- An argument as it is to stand in the text.
abbrev pub escape_arg : Bytes → Bytes
escape_arg [] = []
escape_arg (c ∷ cs) = (if needs_escape c then b'\\' ∷ c ∷ [] else c ∷ []) ++ escape_arg cs

abbrev pub IsSome : Bytes → Type 0
IsSome [] = ⊥
IsSome (c ∷ cs) = Unit {0}

copy_loop-char :
    (dst : Bytes) (c : ℕ) (rest : Bytes)
    → copy_loop dst ((if needs_escape c then b'\\' ∷ c ∷ [] else c ∷ []) ++ rest)
      ≡ copy_loop (dst ++ c ∷ []) rest
unfolding copy_loop
copy_loop-char dst c [] = ground arith
copy_loop-char dst c (d ∷ ds) = ground arith

copy_loop-escape_arg :
    (dst argument rest : Bytes)
    → copy_loop dst (escape_arg argument ++ rest) ≡ copy_loop (dst ++ argument) rest
copy_loop-escape_arg dst [] rest = rw append-nil
copy_loop-escape_arg dst (c ∷ cs) rest =
    ap (copy_loop dst)
      (append_assoc (if needs_escape c then b'\\' ∷ c ∷ [] else c ∷ []) (escape_arg cs) rest)
    ∙ copy_loop-char dst c (escape_arg cs ++ rest)
    ∙ copy_loop-escape_arg (dst ++ c ∷ []) cs rest
    ∙ ap (λ d. copy_loop d rest) (append_assoc dst (c ∷ []) cs)

copy_loop-space : (dst rest : Bytes) → copy_loop dst (b' ' ∷ rest) ≡ (dst, skip_spaces rest)
unfolding copy_loop skip_spaces
copy_loop-space dst [] = refl
copy_loop-space dst (c ∷ cs) = refl

skip_spaces-escape_arg :
    (argument rest : Bytes)
    → IsSome argument
    → skip_spaces (escape_arg argument ++ rest) ≡ escape_arg argument ++ rest
unfolding skip_spaces
skip_spaces-escape_arg [] rest h = absurd h
skip_spaces-escape_arg (c ∷ cs) rest h = ground arith

-- The text that holds the arguments, each escaped.
abbrev pub escaped_args : List Bytes → Bytes
escaped_args arguments = join_args (map escape_arg arguments)

skip_spaces-escaped_args :
    (argument : Bytes) (arguments : List Bytes)
    → IsSome argument
    → skip_spaces (escaped_args (argument ∷ arguments)) ≡ escaped_args (argument ∷ arguments)
unfolding join_args
skip_spaces-escaped_args argument [] h =
    ap skip_spaces (sym (append-nil (escape_arg argument)))
    ∙ skip_spaces-escape_arg argument [] h
    ∙ append-nil (escape_arg argument)
skip_spaces-escaped_args argument (next ∷ rest) h =
    skip_spaces-escape_arg argument (b' ' ∷ escaped_args (next ∷ rest)) h

parse_loop-cons :
    (fuel : ℕ) (src argument rest : Bytes) (arguments : List Bytes)
    → IsSome src
    → argument_copy src ≡ (argument, rest)
    → parse_loop fuel rest ≡ some arguments
    → parse_loop (suc fuel) src ≡ some (argument ∷ arguments)
unfolding parse_loop
parse_loop-cons fuel [] argument rest arguments s e h = absurd s
parse_loop-cons fuel (c ∷ cs) argument rest arguments s e h =
    rw (ap (λ r. r.1) e, parse_loop, h) (ap (λ r. some (r.0 ∷ arguments)) e)

IsSome-escape_arg : (argument rest : Bytes) → IsSome argument → IsSome (escape_arg argument ++ rest)
IsSome-escape_arg [] rest h = absurd h
IsSome-escape_arg (c ∷ cs) rest h = elim (Bool-cases (needs_escape c)) [
  | inl e ↦ rw e tt
  | inr e ↦ rw e tt
]

IsSome-escaped_args :
    (argument : Bytes) (arguments : List Bytes)
    → IsSome argument
    → IsSome (escaped_args (argument ∷ arguments))
unfolding join_args
IsSome-escaped_args argument [] h =
    subst IsSome (append-nil (escape_arg argument)) (IsSome-escape_arg argument [] h)
IsSome-escaped_args argument (next ∷ rest) h = IsSome-escape_arg argument _ h

parse_loop-escaped_args :
    (fuel : ℕ) (arguments : List Bytes)
    → length arguments ≤ fuel
    → All IsSome arguments
    → parse_loop fuel (escaped_args arguments) ≡ some arguments
unfolding join_args argument_copy
parse_loop-escaped_args fuel [] l h = unfold parse_loop in refl
parse_loop-escaped_args zero (argument ∷ arguments) l h = absurd (omega arith)
parse_loop-escaped_args (suc fuel) (argument ∷ []) l h =
    parse_loop-cons fuel (escape_arg argument) argument [] [] (IsSome-escaped_args argument [] h.0)
      (ap (copy_loop []) (sym (append-nil (escape_arg argument)))
        ∙ copy_loop-escape_arg [] argument []
        ∙ last)
      (unfold parse_loop in refl)
  where
    last : copy_loop argument [] ≡ (argument, [])
    last = unfold copy_loop in refl
parse_loop-escaped_args (suc fuel) (argument ∷ (next ∷ rest)) l h =
    parse_loop-cons fuel (escaped_args (argument ∷ next ∷ rest)) argument
      (escaped_args (next ∷ rest)) (next ∷ rest) (IsSome-escaped_args argument (next ∷ rest) h.0)
      (copy_loop-escape_arg [] argument (b' ' ∷ escaped_args (next ∷ rest))
        ∙ copy_loop-space argument (escaped_args (next ∷ rest))
        ∙ ap (λ r. (argument, r)) (skip_spaces-escaped_args next rest h.1.0))
      (parse_loop-escaped_args fuel (next ∷ rest) (omega arith) h.1)

IsSome-length :
    (argument rest : Bytes)
    → IsSome argument
    → 1 + length rest ≤ length (escape_arg argument ++ rest)
IsSome-length [] rest h = absurd h
IsSome-length (c ∷ cs) rest h = ground (arith, length-append (escape_arg cs) rest)

length-escaped_args :
    (arguments : List Bytes)
    → All IsSome arguments
    → length arguments ≤ length (escaped_args arguments)
unfolding join_args
length-escaped_args [] h = omega arith
length-escaped_args (argument ∷ []) h =
    omega (arith, IsSome-length argument [] h.0, ap length (append-nil (escape_arg argument)))
length-escaped_args (argument ∷ (next ∷ rest)) h = omega (
  arith,
  IsSome-length argument (b' ' ∷ escaped_args (next ∷ rest)) h.0,
  length-escaped_args (next ∷ rest) h.1,
)

-- Arguments that are not empty come back from the text in which their spaces and backslashes are
-- escaped and which has a space between each two.
pub of_string-escaped_args :
    (arguments : List Bytes)
    → All IsSome arguments
    → of_string (escaped_args arguments) ≡ some (make (escaped_args arguments) arguments)
unfolding of_string
of_string-escaped_args arguments h = rw (
  parse_loop-escaped_args (length (escaped_args arguments)) arguments
      (length-escaped_args arguments h) h,
  of_string,
)

-- No character of the argument is a space or a backslash.
abbrev pub IsPlain : Bytes → Type 0
IsPlain = All (λ c. (c == b' ' || c == b'\\') ≡ false)

escape_arg-IsPlain : (argument : Bytes) → IsPlain argument → escape_arg argument ≡ argument
escape_arg-IsPlain [] h = refl
escape_arg-IsPlain (c ∷ cs) h = rw (h.0, escape_arg-IsPlain cs h.1)

map-escape_arg :
    (arguments : List Bytes) → All IsPlain arguments → map escape_arg arguments ≡ arguments
map-escape_arg [] h = refl
map-escape_arg (argument ∷ arguments) h =
    rw (escape_arg-IsPlain argument h.0, map-escape_arg arguments h.1)

args-make : (args : Bytes) (arguments : List Bytes) → (make args arguments).args ≡ args
unfolding make
args-make args [] = refl
args-make args (argument ∷ arguments) = refl

-- The text that the constructor from an array builds of arguments that are not empty and hold no
-- space and no backslash gives the same object again.
of_string-of_argv :
    (arguments : List Bytes)
    → All IsSome arguments
    → All IsPlain arguments
    → of_string (of_argv arguments).args ≡ some (of_argv arguments)
unfolding of_argv
of_string-of_argv arguments h k =
    let e = ap join_args (map-escape_arg arguments k) in
    ap of_string (args-make (join_args arguments) arguments)
    ∙ subst (λ t. of_string t ≡ some (make t arguments)) e (of_string-escaped_args arguments h)

-- The constructor from an array, given one argument that is two texts with a space between them,
-- each not empty and without a space or backslash, builds a text that stands for two arguments.
of_string-of_argv_space :
    (x y : Bytes)
    → All IsSome (x ∷ y ∷ [])
    → All IsPlain (x ∷ y ∷ [])
    → of_string (of_argv ((x ++ b' ' ∷ y) ∷ [])).args
      ≡ some (record { args = x ++ b' ' ∷ y; argc = 2; argv = some (x ∷ y ∷ []) })
unfolding of_argv make join_args
of_string-of_argv_space x y h k =
    subst (λ t. of_string t ≡ some (make t (x ∷ y ∷ [])))
      (ap join_args (map-escape_arg (x ∷ y ∷ []) k)) (of_string-escaped_args (x ∷ y ∷ []) h)
