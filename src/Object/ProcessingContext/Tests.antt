-- ===== src/Object/ProcessingContext/Tests.antt =====
-- Runs of a context, and the theorems at concrete inputs.
use open_esl.Prelude.{◌≡◌, refl, true, false, none, some, [], ◌∷◌, Bytes, bytes_eq}
use open_esl.Object.ProcessingContext.{ProcessingContext, find_raw_object}

abbrev log : Bytes
log = b'l' ∷ b'o' ∷ b'g' ∷ []

abbrev holding : ProcessingContext
holding = record {
  parent = some (λ id. some 9);
  entries = [];
  objects = (log, record { owned = true; ref_object = 4; initialize_context = false }) ∷ [];
}

-- The parent's objects are not found.
parent_runs : find_raw_object holding (b'x' ∷ []) ≡ none
unfolding find_raw_object bytes_eq
parent_runs = refl
