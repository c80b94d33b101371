-- ===== src/Utility/Escape/Unchanged.antt =====
-- The texts that `toEscape` makes can be read back, but `fromEscape` does not do it.
use open_esl.Prelude.{
  ℕ, true, false, none, [], ◌∷◌, ◌++◌, append_assoc, ap, sym, ◌∙◌, ◌==◌, if◌then◌else◌, ◌≡◌, refl,
  arith, Bytes,
}
use open_esl.Utility.Escape.{to_escape_sequence, to_escape, from_escape_sequences, from_escape}

-- The character that an escape letter stands for.
abbrev pub letter_value : ℕ → ℕ
letter_value c =
    if c == b'a'
    then 7
    else if c == b'b'
    then 8
    else if c == b't'
    then 9
    else if c == b'n'
    then 10
    else if c == b'v'
    then 11
    else if c == b'f'
    then 12
    else if c == b'r'
    then 13
    else if c == b'0'
    then 0
    else c

-- Reading from left to right, two characters at a backslash.
pub unescape : Bytes → Bytes
unescape [] = []
unescape (c ∷ []) = c ∷ []
unescape (c ∷ (d ∷ cs)) = elim (c == b'\\') [
  | true ↦ letter_value d ∷ unescape cs
  | false ↦ c ∷ unescape (d ∷ cs)
]

unescape_plain : (c : ℕ) (cs : Bytes) → (c == b'\\') ≡ false → unescape (c ∷ cs) ≡ c ∷ unescape cs
unfolding unescape
unescape_plain c [] h = refl
unescape_plain c (d ∷ cs) h = ground arith

unescape_sequence :
    (c : ℕ) (rest : Bytes) → unescape (to_escape_sequence c ++ rest) ≡ c ∷ unescape rest
unfolding to_escape_sequence unescape
unescape_sequence c rest = ground (arith, unescape_plain c rest)

-- Every text is determined by its escaped form, which a reader from left to right undoes.
unescape-to_escape : (str : Bytes) → unescape (to_escape str to_escape_sequence) ≡ str
unfolding to_escape
unescape-to_escape [] = unfold unescape in refl
unescape-to_escape (c ∷ cs) =
    unescape_sequence c (to_escape cs to_escape_sequence) ∙ ap (◌∷◌ c) (unescape-to_escape cs)

no_sequence :
    (p : ℕ) (pre : Bytes) (a b : ℕ) → from_escape_sequences (p ∷ (pre ++ a ∷ b ∷ [])) ≡ none
unfolding from_escape_sequences
no_sequence p [] a b = refl
no_sequence p (q ∷ []) a b = refl
no_sequence p (q ∷ (r ∷ pre)) a b = refl

from_escape_end :
    (a b : ℕ) → (a == b'\\') ≡ false → (b == b'\\') ≡ false → from_escape (a ∷ b ∷ []) ≡ a ∷ b ∷ []
unfolding from_escape from_escape_sequences
from_escape_end a b h k = ground arith

from_escape_unchanged :
    (pre : Bytes) (a b : ℕ)
    → (a == b'\\') ≡ false
    → (b == b'\\') ≡ false
    → from_escape (pre ++ a ∷ b ∷ []) ≡ pre ++ a ∷ b ∷ []
unfolding from_escape
from_escape_unchanged [] a b h k = from_escape_end a b h k
from_escape_unchanged (p ∷ pre) a b h k =
    rw (no_sequence p pre a b, from_escape) (ap (◌∷◌ p) (from_escape_unchanged pre a b h k))

to_escape-append :
    (xs ys : Bytes)
    → to_escape (xs ++ ys) to_escape_sequence
      ≡ to_escape xs to_escape_sequence ++ to_escape ys to_escape_sequence
unfolding to_escape
to_escape-append [] ys = refl
to_escape-append (x ∷ xs) ys =
    rw (to_escape-append xs ys) (sym (append_assoc (to_escape_sequence x) _ _))

-- `fromEscape` decodes no escape sequence of a text of two characters or more that ends in two
-- characters which need no escape: it returns the escaped text as it is.
pub from_escape-to_escape :
    (pre : Bytes) (a b : ℕ)
    → to_escape_sequence a ≡ a ∷ []
    → to_escape_sequence b ≡ b ∷ []
    → (a == b'\\') ≡ false
    → (b == b'\\') ≡ false
    → from_escape (to_escape (pre ++ a ∷ b ∷ []) to_escape_sequence)
      ≡ to_escape pre to_escape_sequence ++ a ∷ b ∷ []
from_escape-to_escape pre a b ea eb h k =
    ap from_escape
      (to_escape-append pre (a ∷ b ∷ []) ∙ ap (◌++◌ (to_escape pre to_escape_sequence)) last)
    ∙ from_escape_unchanged (to_escape pre to_escape_sequence) a b h k
  where
    last : to_escape (a ∷ b ∷ []) to_escape_sequence ≡ a ∷ b ∷ []
    last = unfold to_escape in rw (ea, eb)
