-- ===== src/Utility/Bool/Values.antt =====
-- `String::toBool` sees neither the case of the letters nor the spaces around the text.
use open_esl.Prelude.{
  ℕ, [], ◌∷◌, ◌++◌, ◌==◌, map, reverse, reverse-cons, Bytes, ◌≡◌, ◌≢◌, refl, sym, ap, ◌∙◌, arith,
  replicate, subst,
}
use open_esl.Utility.Trim.Parts.{Starts, Ends, trim-id, trim-padded}
use open_esl.Utility.Bool.{toupper, tolower, to_upper, to_lower, normalized_bool, to_bool}

toupper-toupper : (c : ℕ) → toupper (toupper c) ≡ toupper c
unfolding toupper
toupper-toupper c = ground arith

toupper-tolower : (c : ℕ) → toupper (tolower c) ≡ toupper c
unfolding toupper tolower
toupper-tolower c = ground arith

toupper-space : (c : ℕ) → (toupper c == b' ') ≡ (c == b' ')
unfolding toupper
toupper-space c = ground arith

tolower-space : (c : ℕ) → (tolower c == b' ') ≡ (c == b' ')
unfolding tolower
tolower-space c = ground arith

map-snoc : (f : ℕ → ℕ) (xs : Bytes) (x : ℕ) → map f (xs ++ x ∷ []) ≡ map f xs ++ f x ∷ []
map-snoc f [] x = refl
map-snoc f (y ∷ ys) x = ap (◌∷◌ (f y)) (map-snoc f ys x)

reverse-map : (f : ℕ → ℕ) (xs : Bytes) → reverse (map f xs) ≡ map f (reverse xs)
reverse-map f [] = refl
reverse-map f (x ∷ xs) =
    rw (reverse-cons (f x) (map f xs), reverse-cons x xs, reverse-map f xs)
      (sym (map-snoc f (reverse xs) x))

map-ne-nil : (f : ℕ → ℕ) (xs : Bytes) → xs ≢ [] → map f xs ≢ []
map-ne-nil f [] h e = h refl
map-ne-nil f (x ∷ xs) h e = cc

-- A change of letters that leaves spaces alone and that `toupper` undoes.
module _ (f : ℕ → ℕ) (space : (c : ℕ) → (f c == b' ') ≡ (c == b' '))
    (upper : (c : ℕ) → toupper (f c) ≡ toupper c) where
  Starts-map : (xs : Bytes) → Starts b' ' xs → Starts b' ' (map f xs)
  Starts-map [] h = tt
  Starts-map (x ∷ xs) h = space x ∙ h

  to_upper-map : (xs : Bytes) → to_upper (map f xs) ≡ to_upper xs
  unfolding to_upper
  to_upper-map [] = refl
  to_upper-map (x ∷ xs) = rw (upper x, to_upper-map xs)

  to_bool-map :
      (m n : ℕ) (str : Bytes)
      → Starts b' ' str
      → Ends b' ' str
      → str ≢ []
      → to_bool (replicate m b' ' ++ (map f str ++ replicate n b' ')) ≡ to_bool str
  unfolding to_bool
  to_bool-map m n str h k ne =
      ap (λ t. normalized_bool (to_upper t))
        (trim-padded m n (map f str) b' ' (Starts-map str h)
          (subst (Starts b' ') (sym (reverse-map f str)) (Starts-map (reverse str) k))
          (map-ne-nil f str ne))
      ∙ ap normalized_bool (to_upper-map str)
      ∙ ap (λ t. normalized_bool (to_upper t)) (sym (trim-id str b' ' h k))

-- A text that is not empty and neither starts nor ends with a space keeps its value, or its
-- refusal, when its letters are changed to lower case or to upper case and spaces are put around
-- it.
to_bool_normalizes :
    (m n : ℕ) (str : Bytes)
    → Starts b' ' str
    → Ends b' ' str
    → str ≢ []
    → (to_bool (replicate m b' ' ++ (to_lower str ++ replicate n b' ')) ≡ to_bool str)
      × (to_bool (replicate m b' ' ++ (to_upper str ++ replicate n b' ')) ≡ to_bool str)
unfolding to_lower to_upper
to_bool_normalizes m n str h k ne = (
  to_bool-map tolower tolower-space toupper-tolower m n str h k ne,
  to_bool-map toupper toupper-space toupper-toupper m n str h k ne,
)
