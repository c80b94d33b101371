-- ===== src/Utility/Bool/Tests.antt =====
-- Runs of `String::toBool`.
use open_esl.Prelude.{true, false, some, none, [], ◌∷◌, ◌≡◌, refl}
use open_esl.Utility.Bool.{to_bool}

to_bool_yes : to_bool (b' ' ∷ b'y' ∷ b'e' ∷ b'S' ∷ b' ' ∷ []) ≡ some true
unfolding to_bool
to_bool_yes = refl

to_bool_spaces : to_bool (b' ' ∷ b' ' ∷ []) ≡ some false
unfolding to_bool
to_bool_spaces = refl

to_bool_refused : to_bool (b'y' ∷ []) ≡ none
unfolding to_bool
to_bool_refused = refl
