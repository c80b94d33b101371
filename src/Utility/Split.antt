-- ===== src/Utility/Split.antt =====
-- `String::split` of features/common4esl/src/esl/utility/String.cpp.
pub mod Join
mod Tests
use open_esl.Prelude.{ℕ, Bool, ◌&&◌, List, [], ◌∷◌, ◌++◌, ◌==◌, if◌then◌else◌, is_empty, Bytes}

-- `rv.push_back(content)`, unless empty content is to be dropped
unfoldable pub push_content : Bool → List Bytes → Bytes → List Bytes
push_content drop_empty rv content =
    if drop_empty && is_empty content then rv else rv ++ content ∷ []

-- The loop over `currentIt`; `content` is what stands between `lastIt` and `currentIt`.
unfoldable pub split_loop : (ℕ → Bool) → Bool → List Bytes → Bytes → Bytes → List Bytes
unfolding push_content
split_loop is_sep drop_empty rv content [] = push_content drop_empty rv content
split_loop is_sep drop_empty rv content (c ∷ cs) =
    split_loop is_sep drop_empty (if is_sep c then push_content drop_empty rv content else rv)
      (if is_sep c then [] else content ++ c ∷ []) cs

-- `separators.count`, as a test
unfoldable pub split_set : Bytes → (ℕ → Bool) → Bool → List Bytes
unfolding split_loop
split_set str is_sep drop_empty = split_loop is_sep drop_empty [] [] str

unfoldable pub split : Bytes → ℕ → Bool → List Bytes
unfolding split_set
split str separator drop_empty = split_set str (λ c. c == separator) drop_empty
