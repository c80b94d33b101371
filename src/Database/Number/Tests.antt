-- ===== src/Database/Number/Tests.antt =====
-- Runs of the number functions.
use open_esl.Prelude.{◌≡◌, refl, some, [], ◌∷◌}
use open_esl.Database.Number.{pos, negsuc, print_integer, stoll}

print_runs : print_integer (negsuc 41) ≡ b'-' ∷ b'4' ∷ b'2' ∷ []
unfolding print_integer
print_runs = refl

stoll_runs : stoll (b' ' ∷ b'1' ∷ b'2' ∷ b'x' ∷ []) ≡ some (pos 12)
unfolding stoll
stoll_runs = refl
