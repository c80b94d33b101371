-- ===== src/Utility/Trim/Parts.antt =====
-- What `String::trim` takes off.
use open_esl.Prelude.{
  subst, ◌≡⟨◌⟩◌, ◌∎, ℕ, zero, suc, false, [], ◌∷◌, ◌++◌, ◌==◌, if◌then◌else◌, reverse, Bytes, ◌≡◌,
  refl, sym, ap, ◌∙◌, arith, ◌≢◌, replicate, append_assoc, reverse-append, reverse-reverse,
  reverse-cons, ==-refl,
}
use open_esl.Utility.Trim.{ltrim, rtrim, trim}

-- The text is empty, or its first character is another one than `c`.
abbrev pub Starts : ℕ → Bytes → Type 0
Starts c [] = Unit {0}
Starts c (x ∷ xs) = (x == c) ≡ false

-- The same at the other end.
abbrev pub Ends : ℕ → Bytes → Type 0
Ends c str = Starts c (reverse str)

pub ltrim_count : Bytes → ℕ → ℕ
ltrim_count [] c = 0
ltrim_count (x ∷ xs) c = if x == c then suc (ltrim_count xs c) else 0

ltrim-parts : (str : Bytes) (c : ℕ) → str ≡ replicate (ltrim_count str c) c ++ ltrim str c
unfolding ltrim ltrim_count
ltrim-parts [] c = refl
ltrim-parts (x ∷ xs) c = ground (arith, ltrim-parts xs c)

ltrim-Starts : (str : Bytes) (c : ℕ) → Starts c (ltrim str c)
unfolding ltrim
ltrim-Starts [] c = tt
ltrim-Starts (x ∷ xs) c = ground (arith, ltrim-Starts xs c)

replicate-snoc : (n c : ℕ) → replicate n c ++ c ∷ [] ≡ c ∷ replicate n c
replicate-snoc zero c = refl
replicate-snoc (suc n) c = ap (◌∷◌ c) (replicate-snoc n c)

reverse-replicate : (n c : ℕ) → reverse (replicate n c) ≡ replicate n c
reverse-replicate zero c = refl
reverse-replicate (suc n) c =
    rw (reverse-cons c (replicate n c), reverse-replicate n c) (replicate-snoc n c)

rtrim_count : Bytes → ℕ → ℕ
rtrim_count str c = ltrim_count (reverse str) c

rtrim-parts : (str : Bytes) (c : ℕ) → str ≡ rtrim str c ++ replicate (rtrim_count str c) c
unfolding rtrim rtrim_count
rtrim-parts str c =
    str
    ≡⟨ sym (reverse-reverse str) ⟩ reverse (reverse str)
    ≡⟨ ap reverse (ltrim-parts (reverse str) c) ⟩
      reverse (replicate (ltrim_count (reverse str) c) c ++ ltrim (reverse str) c)
    ≡⟨ reverse-append (replicate (ltrim_count (reverse str) c) c) (ltrim (reverse str) c) ⟩
      reverse (ltrim (reverse str) c) ++ reverse (replicate (ltrim_count (reverse str) c) c)
    ≡⟨ (rw reverse-replicate) ⟩
      reverse (ltrim (reverse str) c) ++ replicate (ltrim_count (reverse str) c) c ∎

rtrim-Ends : (str : Bytes) (c : ℕ) → Ends c (rtrim str c)
unfolding rtrim
rtrim-Ends str c = rw reverse-reverse (ltrim-Starts (reverse str) c)

Starts-append : (c : ℕ) (xs ys : Bytes) → Starts c (xs ++ ys) → Starts c xs
Starts-append c [] ys h = tt
Starts-append c (x ∷ xs) ys h = h

rtrim-Starts : (str : Bytes) (c : ℕ) → Starts c str → Starts c (rtrim str c)
rtrim-Starts str c h =
    Starts-append c (rtrim str c) (replicate (rtrim_count str c) c)
      (subst (Starts c) (rtrim-parts str c) h)

-- Only copies of the trim character are taken off, at both ends, and none is left at either end.
trim-parts :
    (str : Bytes) (c : ℕ)
    → (m : ℕ) × (n : ℕ) × (str ≡ replicate m c ++ trim str c ++ replicate n c)
      × Starts c (trim str c)
      × Ends c (trim str c)
unfolding trim
trim-parts str c = (
  ltrim_count str c,
  rtrim_count (ltrim str c) c,
  ltrim-parts str c
      ∙ ap (◌++◌ (replicate (ltrim_count str c) c)) (rtrim-parts (ltrim str c) c)
      ∙ sym (append_assoc (replicate (ltrim_count str c) c) _ _),
  rtrim-Starts (ltrim str c) c (ltrim-Starts str c),
  rtrim-Ends (ltrim str c) c,
)

pub ltrim-id : (str : Bytes) (c : ℕ) → Starts c str → ltrim str c ≡ str
unfolding ltrim
ltrim-id [] c h = refl
ltrim-id (x ∷ xs) c h = rw h

rtrim-id : (str : Bytes) (c : ℕ) → Ends c str → rtrim str c ≡ str
unfolding rtrim
rtrim-id str c h = rw (ltrim-id (reverse str) c h) (reverse-reverse str)

pub trim-id : (str : Bytes) (c : ℕ) → Starts c str → Ends c str → trim str c ≡ str
unfolding trim
trim-id str c h k = rw (ltrim-id str c h) (rtrim-id str c k)

ltrim-replicate : (n : ℕ) (str : Bytes) (c : ℕ) → ltrim (replicate n c ++ str) c ≡ ltrim str c
unfolding ltrim
ltrim-replicate zero str c = refl
ltrim-replicate (suc n) str c = rw (==-refl c) (ltrim-replicate n str c)

rtrim-replicate : (n : ℕ) (str : Bytes) (c : ℕ) → rtrim (str ++ replicate n c) c ≡ rtrim str c
unfolding rtrim
rtrim-replicate n str c =
    rw
      (reverse-append str (replicate n c), reverse-replicate n c, ltrim-replicate n (reverse str) c)

-- A text that is not empty and neither starts nor ends with the trim character comes back from any
-- padding.
pub trim-padded :
    (m n : ℕ) (str : Bytes) (c : ℕ)
    → Starts c str
    → Ends c str
    → str ≢ []
    → trim (replicate m c ++ (str ++ replicate n c)) c ≡ str
unfolding trim
trim-padded m n [] c h k ne = absurd (ne refl)
trim-padded m n (x ∷ xs) c h k ne =
    rw (ltrim-replicate m (x ∷ (xs ++ replicate n c)) c, ltrim-id (x ∷ (xs ++ replicate n c)) c h)
      (rtrim-replicate n (x ∷ xs) c ∙ rtrim-id (x ∷ xs) c k)
