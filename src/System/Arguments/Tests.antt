-- ===== src/System/Arguments/Tests.antt =====
-- Runs of the constructors, and the theorems at concrete inputs.
use open_esl.Prelude.{◌≡◌, refl, some, List, [], ◌∷◌, length, Bytes}
use open_esl.System.Arguments.{Arguments, argument_size, argument_copy, make, of_string}
use open_esl.System.Arguments.Sizes.{argument_copy-argument_size}
use open_esl.System.Arguments.RoundTrip.{escaped_args, of_string-escaped_args}

-- "a b" and "c"
abbrev two_args : List Bytes
two_args = (b'a' ∷ b' ' ∷ b'b' ∷ []) ∷ (b'c' ∷ []) ∷ []

-- `a\ b  c`
abbrev text : Bytes
text = b'a' ∷ b'\\' ∷ b' ' ∷ b'b' ∷ b' ' ∷ b' ' ∷ b'c' ∷ []

of_string_runs : of_string text ≡ some (make text two_args)
unfolding of_string
of_string_runs = refl

argument_copy-argument_size_example :
    (length (argument_copy text).0 ≡ (argument_size text).0)
    × ((argument_copy text).1 ≡ (argument_size text).1)
argument_copy-argument_size_example = argument_copy-argument_size text

of_string-escaped_args_example :
    of_string (escaped_args two_args) ≡ some (make (escaped_args two_args) two_args)
of_string-escaped_args_example = of_string-escaped_args two_args (tt, (tt, tt))

abbrev object : Arguments
object = record { args = b'c' ∷ []; argc = 1; argv = some ((b'c' ∷ []) ∷ []) }

of_string_object : of_string (b'c' ∷ []) ≡ some object
unfolding of_string
of_string_object = refl
