-- ===== src/Utility/Url/Components.antt =====
-- The members that the constructor sets, against the components that a URL is written from.
use open_esl.Prelude.{
  ℕ, zero, suc, ◌≡◌, refl, false, ◌||◌, [], ◌∷◌, ◌++◌, arith, ◌==◌, replicate, All, Bytes,
}
use open_esl.Utility.Url.{Url, before, from, not_space, ends_scheme}
use open_esl.Utility.Url.Render.{Avoids, StopsAt, before-append, from-append}

-- What the tests of the scheme need.
module _ (n : ℕ) (text rest : Bytes) where
  skip_spaces :
      All (λ c. (ends_scheme c || c == b' ' || c == b'/') ≡ false) text
      → (before not_space (replicate n b' ' ++ (text ++ b':' ∷ rest)) ≡ replicate n b' ')
        × (from not_space (replicate n b' ' ++ (text ++ b':' ∷ rest)) ≡ text ++ b':' ∷ rest)
  skip_spaces h = (
    before-append not_space (replicate n b' ') _ (spaces n) (first text h),
    from-append not_space (replicate n b' ') _ (spaces n) (first text h),
  )
    where
      spaces : (m : ℕ) → Avoids not_space (replicate m b' ')
      spaces zero = tt
      spaces (suc m) = (refl, spaces m)

      first :
          (t : Bytes)
          → All (λ c. (ends_scheme c || c == b' ' || c == b'/') ≡ false) t
          → StopsAt not_space (t ++ b':' ∷ rest)
      first [] k = refl
      first (c ∷ cs) k = ground (arith, k.0)
