-- ===== src/Database/Integers.antt =====
-- Integers in the place of doubles, for the runs and the concrete inputs of the tests.
use open_esl.Prelude.{not}
use open_esl.Database.Number.{ℤ, pos, int_eq, print_integer, stoll}
use open_esl.Database.Conversion.{DoubleOps}

pub integers : DoubleOps ℤ
integers = record {
  of_integer = λ i. i;
  to_integer = λ d. d;
  print = print_integer;
  stod = stoll;
  same = int_eq;
  at_least_half = λ d. not (int_eq d (pos 0));
}
