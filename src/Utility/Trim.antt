-- ===== src/Utility/Trim.antt =====
-- `String::ltrim`, `String::rtrim` and `String::trim` of
-- features/common4esl/src/esl/utility/String.cpp.
pub mod Parts
mod Tests
use open_esl.Prelude.{ℕ, [], ◌∷◌, ◌==◌, if◌then◌else◌, reverse, Bytes}

-- `erase` from the start up to the first character that `find_if` stops at
unfoldable pub ltrim : Bytes → ℕ → Bytes
ltrim [] trim_character = []
ltrim (c ∷ cs) trim_character = if c == trim_character then ltrim cs trim_character else c ∷ cs

-- `find_if` from `rbegin`, and `base()` back to a forward position
unfoldable pub rtrim : Bytes → ℕ → Bytes
unfolding ltrim
rtrim str trim_character = reverse (ltrim (reverse str) trim_character)

unfoldable pub trim : Bytes → ℕ → Bytes
unfolding rtrim
trim str trim_character = rtrim (ltrim str trim_character) trim_character
