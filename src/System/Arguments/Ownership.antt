-- ===== src/System/Arguments/Ownership.antt =====
-- `argc` always counts the entries of `argv`, so that no member function reads behind the array.
use open_esl.Prelude.{
  some-injective, ℕ, zero, suc, ◌<◌, ◌≡◌, refl, sym, ap, subst, ◌∙◌, ◌⊎◌, inl, inr, Option, none,
  some, List, [], ◌∷◌, arith, length, take, Bytes,
}
use open_esl.System.Arguments.Sizes.{of_string-total}
use open_esl.System.Arguments.{Arguments, make, of_string, of_argv, copy_argv, copy, move, deleted}

-- The pointer is null exactly for no argument, and otherwise the array has `argc` entries.
abbrev pub IsValid : Arguments → Type 0
IsValid a =
    ((a.argc ≡ 0) × (a.argv ≡ none))
    ⊎ ((argv : List Bytes) × (a.argv ≡ some argv) × (length argv ≡ a.argc) × (0 < a.argc))

abbrev pub entries : Option (List Bytes) → List Bytes
entries none = []
entries (some argv) = argv

take-length : (xs : List Bytes) (n : ℕ) → length xs ≡ n → take n xs ≡ xs
take-length [] zero h = refl
take-length [] (suc n) h = absurd (omega arith)
take-length (x ∷ xs) zero h = absurd (omega arith)
take-length (x ∷ xs) (suc n) h = ap (◌∷◌ x) (take-length xs n (omega arith))

-- Both constructors from arguments make a valid object.
make-IsValid : (args : Bytes) (arguments : List Bytes) → IsValid (make args arguments)
unfolding make
make-IsValid args [] = inl (refl, refl)
make-IsValid args (argument ∷ arguments) = inr (argument ∷ arguments, refl, refl, omega arith)

-- A copy of a valid object reads nothing out of bounds and has equal members.
copy_lem : (a : Arguments) → IsValid a → copy a ≡ some a
unfolding copy copy_argv
copy_lem a (inl (c, v)) = ground arith
copy_lem a (inr (argv, v, l, p)) = ground (arith, take-length argv a.argc l)

-- The destructor of a valid object deletes each entry and reads nothing out of bounds.
deleted_lem : (a : Arguments) → IsValid a → deleted a ≡ some (entries a.argv)
unfolding deleted copy_argv
deleted_lem a (inl (c, v)) = ground arith
deleted_lem a (inr (argv, v, l, p)) = ground (arith, take-length argv a.argc l)

-- An object whose array and count fit each other is copied to an equal one; a move gives its
-- members to the new object and leaves an object that is valid too and owns no entry; and
-- destroying it deletes exactly the entries of its array.
copy-move-deleted :
    (a : Arguments) (moved : Bytes)
    → IsValid a
    → (copy a ≡ some a)
      × ((move moved a).0 ≡ a)
      × IsValid (move moved a).1
      × (deleted (move moved a).1 ≡ some [])
      × (deleted a ≡ some (entries a.argv))
unfolding move
copy-move-deleted a moved v =
    (copy_lem a v, refl, inl (refl, refl), unfold deleted in refl, deleted_lem a v)

-- The constructors from a text and from an array give valid objects.
constructors-IsValid :
    (arguments : List Bytes) (args : Bytes) (a : Arguments)
    → of_string args ≡ some a
    → IsValid a × IsValid (of_argv arguments)
unfolding of_argv
constructors-IsValid arguments args a e =
    let (l, made) = of_string-total args in
    (
      subst IsValid (some-injective _ _ (sym made ∙ e)) (make-IsValid args l),
      make-IsValid _ arguments,
    )
