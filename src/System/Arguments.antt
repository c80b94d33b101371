-- ===== src/System/Arguments.antt =====
-- esl/src/esl/system/Arguments.h and Arguments.cpp. A `const char*` is the list of the bytes up to
-- the terminating zero: `*src == 0` is the empty list.
pub mod Sizes
pub mod RoundTrip
pub mod Ownership
mod Tests
use open_esl.Prelude.{
  ℕ, zero, suc, ◌+◌, refl, ap, Option, none, some, List, [], ◌∷◌, ◌++◌, ltb, ◌==◌, if◌then◌else◌,
  length, take, Bytes,
}

-- `while(*src == ' ') ++src;`
unfoldable pub skip_spaces : Bytes → Bytes
skip_spaces [] = []
skip_spaces (c ∷ cs) = if c == b' ' then skip_spaces cs else c ∷ cs

-- `argumentSize`: the count so far, and the rest of the text. It returns `length` and `src`.
unfoldable pub size_loop : ℕ → Bytes → ℕ × Bytes
unfolding skip_spaces
size_loop length [] = (length, [])
size_loop length (c ∷ []) =
    if c == b' ' then (length, []) else if c == b'\\' then (length, []) else (length + 1, [])
size_loop length (c ∷ (d ∷ ds)) =
    let escaped = size_loop (length + 1) ds in
    let plain = size_loop (length + 1) (d ∷ ds) in
    if c == b' ' then (length, skip_spaces (d ∷ ds)) else if c == b'\\' then escaped else plain

unfoldable pub argument_size : Bytes → ℕ × Bytes
unfolding size_loop
argument_size src = size_loop 0 src

-- `argumentCopy`: the bytes written so far, and the rest of the text. It writes a zero behind
-- the bytes and returns `src`.
unfoldable pub copy_loop : Bytes → Bytes → Bytes × Bytes
unfolding skip_spaces
copy_loop dst [] = (dst, [])
copy_loop dst (c ∷ []) =
    if c == b' ' then (dst, []) else if c == b'\\' then (dst, []) else (dst ++ c ∷ [], [])
copy_loop dst (c ∷ (d ∷ ds)) =
    let escaped = copy_loop (dst ++ d ∷ []) ds in
    let plain = copy_loop (dst ++ c ∷ []) (d ∷ ds) in
    if c == b' ' then (dst, skip_spaces (d ∷ ds)) else if c == b'\\' then escaped else plain

unfoldable pub argument_copy : Bytes → Bytes × Bytes
unfolding copy_loop
argument_copy src = copy_loop [] src

-- The loop of the constructor, on fuel; `none` means that the fuel ran out. `argumentSize` gives the
-- size of each buffer.
unfoldable pub parse_loop : ℕ → Bytes → Option (List Bytes)
unfolding argument_copy
parse_loop fuel [] = some []
parse_loop zero (c ∷ cs) = none
parse_loop (suc fuel) (c ∷ cs) =
    let (argument, src) = argument_copy (c ∷ cs) in
    elim (parse_loop fuel src) [ none ↦ none | some arguments ↦ some (argument ∷ arguments) ]

-- The members; `argv` is a null pointer or the array without its last, null entry.
pub record Arguments : Type 0 where
  pub args : Bytes
  pub argc : ℕ
  pub argv : Option (List Bytes)

-- `argv` stays null if there is no argument.
unfoldable pub make : Bytes → List Bytes → Arguments
make args [] = record { args = args; argc = 0; argv = none }
make args (argument ∷ arguments) = record {
  args = args;
  argc = length (argument ∷ arguments);
  argv = some (argument ∷ arguments);
}

-- `Arguments(std::string)`
unfoldable pub of_string : Bytes → Option Arguments
unfolding parse_loop make
of_string args = elim (parse_loop (length args) args) [
  | none ↦ none
  | some arguments ↦ some (make args arguments)
]

-- The text that `Arguments(std::size_t, const char**)` builds.
unfoldable pub join_args : List Bytes → Bytes
join_args [] = []
join_args (argument ∷ []) = argument
join_args (argument ∷ (next ∷ rest)) = argument ++ b' ' ∷ join_args (next ∷ rest)

-- `Arguments(std::size_t, const char**)`
unfoldable pub of_argv : List Bytes → Arguments
unfolding make join_args
of_argv arguments = make (join_args arguments) arguments

-- `new char*[argc + 1]` and a copy of `other.argv[i]` for each `i` below `argc`; a read through a
-- null pointer or behind the array is `none`.
unfoldable pub copy_argv : ℕ → Option (List Bytes) → Option (List Bytes)
copy_argv argc none = none
copy_argv argc (some argv) = if ltb (length argv) argc then none else some (take argc argv)

-- The copy constructor, and the copy assignment to an object that is not `other` itself.
unfoldable pub copy : Arguments → Option Arguments
unfolding copy_argv
copy other =
    if other.argc == 0
    then some (record { args = other.args; argc = 0; argv = none })
    else elim (copy_argv other.argc other.argv) [
      | none ↦ none
      | some argv ↦ some (record { args = other.args; argc = other.argc; argv = some argv })
    ]

-- The move constructor and the move assignment: the new object and what is left of `other`, whose
-- moved-from text is `moved`.
unfoldable pub move : Bytes → Arguments → Arguments × Arguments
move moved other = (other, record { args = moved; argc = 0; argv = none })

-- The destructor, which also is the first half of both assignments: the `argv[i]` that it deletes.
unfoldable pub deleted : Arguments → Option (List Bytes)
unfolding copy_argv
deleted a = if a.argc == 0 then some [] else copy_argv a.argc a.argv
