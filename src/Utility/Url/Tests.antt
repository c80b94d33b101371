-- ===== src/Utility/Url/Tests.antt =====
-- Runs of the `URL` constructor, and the theorems at concrete inputs.
use open_esl.Prelude.{◌≡◌, refl, some, [], ◌∷◌}
use open_esl.Utility.Url.{Url, parse}
use open_esl.Utility.Url.Render.{Components}

-- "h://a:1/p?q#t"
abbrev parts : Components
parts = record {
  scheme = b'h' ∷ [];
  hostname = b'a' ∷ [];
  port = some (b'1' ∷ []);
  path = some (b'p' ∷ []);
  query = some (b'q' ∷ []);
  tag = some (b't' ∷ []);
}

-- A tag directly behind the host name is taken for a part of it.
hostname_with_tag :
    parse (b'h' ∷ b':' ∷ b'/' ∷ b'/' ∷ b'a' ∷ b'#' ∷ b't' ∷ [])
    ≡ some (record {
      rest = [];
      scheme = b'h' ∷ [];
      hostname = b'a' ∷ b'#' ∷ b't' ∷ [];
      port = [];
      path = [];
      query = [];
      tag = [];
    })
unfolding parse
hostname_with_tag = refl
