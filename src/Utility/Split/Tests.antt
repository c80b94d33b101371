-- ===== src/Utility/Split/Tests.antt =====
-- Runs of `String::split`, and a theorem at a concrete input.
use open_esl.Prelude.{true, false, List, [], ◌∷◌, Bytes, ◌≡◌, refl}
use open_esl.Utility.Split.{split}
use open_esl.Utility.Split.Join.{split-join}

-- "a,,b"
abbrev text : Bytes
text = b'a' ∷ b',' ∷ b',' ∷ b'b' ∷ []

abbrev parts : List Bytes
parts = (b'a' ∷ []) ∷ [] ∷ (b'b' ∷ []) ∷ []

split_runs : split text b',' false ≡ parts
unfolding split
split_runs = refl

split_drops : split text b',' true ≡ (b'a' ∷ []) ∷ (b'b' ∷ []) ∷ []
unfolding split
split_drops = refl

split-join_example : split text b',' false ≡ parts
split-join_example =
    split-join b',' (b'a' ∷ []) ([] ∷ (b'b' ∷ []) ∷ []) ((refl, tt), (tt, ((refl, tt), tt)))
