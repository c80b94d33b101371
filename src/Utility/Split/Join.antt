-- ===== src/Utility/Split/Join.antt =====
-- What `String::split` returns, against the inverse operation of joining.
use open_esl.Prelude.{
  ℕ, Bool, true, false, List, [], ◌∷◌, ◌++◌, ◌==◌, if◌then◌else◌, is_empty, Bytes, ◌≡◌, refl, sym,
  ap, ◌∙◌, arith, All, All-append, append-nil, append_assoc, inl, inr, Bool-cases, ==_iff, ==-refl,
}
use open_esl.Utility.Split.{push_content, split_loop, split_set, split}

-- The pieces with the separator between each two.
abbrev pub join : ℕ → List Bytes → Bytes
join sep [] = []
join sep (x ∷ []) = x
join sep (x ∷ (y ∷ ys)) = x ++ sep ∷ join sep (y ∷ ys)

-- The pieces after an unfinished one.
abbrev pub pieces : (ℕ → Bool) → Bytes → Bytes → List Bytes
pieces is_sep content [] = content ∷ []
pieces is_sep content (c ∷ cs) =
    if is_sep c then content ∷ pieces is_sep [] cs else pieces is_sep (content ++ c ∷ []) cs

abbrev pub drop_empties : List Bytes → List Bytes
drop_empties [] = []
drop_empties (x ∷ xs) = if is_empty x then drop_empties xs else x ∷ drop_empties xs

abbrev kept : Bool → List Bytes → List Bytes
kept d xs = if d then drop_empties xs else xs

abbrev NoSep : (ℕ → Bool) → Bytes → Type 0
NoSep is_sep = All (λ c. is_sep c ≡ false)

split_loop-pieces :
    (is_sep : ℕ → Bool) (d : Bool) (rv : List Bytes) (content str : Bytes)
    → split_loop is_sep d rv content str ≡ rv ++ kept d (pieces is_sep content str)
unfolding split_loop push_content
split_loop-pieces is_sep d rv content [] = ground (arith, append-nil rv)
split_loop-pieces is_sep d rv content (c ∷ cs) = ground (
  arith,
  split_loop-pieces is_sep d (push_content d rv content) [] cs,
  split_loop-pieces is_sep d rv (content ++ c ∷ []) cs,
  append_assoc rv (content ∷ []) (kept d (pieces is_sep [] cs)),
)

split_set-pieces :
    (str : Bytes) (is_sep : ℕ → Bool) (d : Bool)
    → split_set str is_sep d ≡ kept d (pieces is_sep [] str)
unfolding split_set
split_set-pieces str is_sep d = split_loop-pieces is_sep d [] [] str

-- Asking for non-empty content only is the same as dropping the empty pieces afterwards.
split_set-drop_empty :
    (str : Bytes) (is_sep : ℕ → Bool)
    → split_set str is_sep true ≡ drop_empties (split_set str is_sep false)
split_set-drop_empty str is_sep =
    rw (split_set-pieces str is_sep true, split_set-pieces str is_sep false)

pieces-NoSep :
    (is_sep : ℕ → Bool) (content str : Bytes)
    → NoSep is_sep content
    → All (NoSep is_sep) (pieces is_sep content str)
pieces-NoSep is_sep content [] h = (h, tt)
pieces-NoSep is_sep content (c ∷ cs) h = elim (Bool-cases (is_sep c)) [
  | inl e ↦ rw e (h, pieces-NoSep is_sep [] cs tt)
  | inr e ↦ rw e (pieces-NoSep is_sep (content ++ c ∷ []) cs (All-append _ content _ h (e, tt)))
]

-- A joined list starts with its first piece.
join-cons :
    (sep : ℕ) (is_sep : ℕ → Bool) (x content str : Bytes)
    → join sep (x ∷ pieces is_sep content str) ≡ x ++ sep ∷ join sep (pieces is_sep content str)
join-cons sep is_sep x content [] = refl
join-cons sep is_sep x content (c ∷ cs) = elim (Bool-cases (is_sep c)) [
  | inl e ↦ rw e
  | inr e ↦ rw e (join-cons sep is_sep x (content ++ c ∷ []) cs)
]

join-pieces :
    (sep : ℕ) (content str : Bytes) → join sep (pieces (λ c. c == sep) content str) ≡ content ++ str
join-pieces sep content [] = sym (append-nil content)
join-pieces sep content (c ∷ cs) = elim (Bool-cases (c == sep)) [
  | inl e ↦
      rw (e, join-cons sep (λ b. b == sep) content [] cs, join-pieces sep [] cs)
        (ap (λ b. content ++ b ∷ cs) (sym ((==_iff c sep).0 e)))
  | inr e ↦ rw (e, join-pieces sep (content ++ c ∷ []) cs) (append_assoc content (c ∷ []) cs)
]

-- Splitting at a separator loses nothing: the pieces joined by it are the text again, and no
-- piece holds the separator.
join-split :
    (str : Bytes) (sep : ℕ)
    → (join sep (split str sep false) ≡ str)
      × All (All (λ c. (c == sep) ≡ false)) (split str sep false)
unfolding split
join-split str sep =
    rw (split_set-pieces str (λ c. c == sep) false)
      (join-pieces sep [] str, pieces-NoSep (λ c. c == sep) [] str tt)

pieces-append :
    (is_sep : ℕ → Bool) (content x str : Bytes)
    → NoSep is_sep x
    → pieces is_sep content (x ++ str) ≡ pieces is_sep (content ++ x) str
pieces-append is_sep content [] str h = rw append-nil
pieces-append is_sep content (c ∷ cs) str h =
    rw (h.0, pieces-append is_sep (content ++ c ∷ []) cs str h.1, append_assoc content (c ∷ []) cs)

pieces-join :
    (sep : ℕ) (x : Bytes) (xs : List Bytes)
    → All (NoSep (λ c. c == sep)) (x ∷ xs)
    → pieces (λ c. c == sep) [] (join sep (x ∷ xs)) ≡ x ∷ xs
pieces-join sep x [] h =
    ap (pieces (λ c. c == sep) []) (sym (append-nil x)) ∙ pieces-append (λ c. c == sep) [] x [] h.0
pieces-join sep x (y ∷ ys) h =
    pieces-append (λ c. c == sep) [] x (sep ∷ join sep (y ∷ ys)) h.0
    ∙ rw (==-refl sep) (ap (◌∷◌ x) (pieces-join sep y ys h.1))

-- Any list of pieces that do not hold the separator, if there is one piece at least, is what the
-- text made of them by the separator splits into.
pub split-join :
    (sep : ℕ) (x : Bytes) (xs : List Bytes)
    → All (All (λ c. (c == sep) ≡ false)) (x ∷ xs)
    → split (join sep (x ∷ xs)) sep false ≡ x ∷ xs
unfolding split
split-join sep x xs h =
    split_set-pieces (join sep (x ∷ xs)) (λ c. c == sep) false ∙ pieces-join sep x xs h
