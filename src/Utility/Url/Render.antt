-- ===== src/Utility/Url/Render.antt =====
-- A URL written from components, and the text up to the characters that end one.
use open_esl.Prelude.{
  ℕ, ◌≡◌, refl, Bool, true, false, ◌||◌, Option, none, some, [], ◌∷◌, ◌++◌, ◌==◌, All, Bytes,
}
use open_esl.Utility.Url.{
  before, from, ends_scheme, ends_hostname, ends_port, ends_path, ends_query,
}

abbrev pub Avoids : (ℕ → Bool) → Bytes → Type 0
Avoids stop = All (λ c. stop c ≡ false)

abbrev pub StopsAt : (ℕ → Bool) → Bytes → Type 0
StopsAt stop [] = Unit {0}
StopsAt stop (c ∷ cs) = stop c ≡ true

pub before-append :
    (stop : ℕ → Bool) (xs rest : Bytes)
    → Avoids stop xs
    → StopsAt stop rest
    → before stop (xs ++ rest) ≡ xs
unfolding before
before-append stop [] [] h k = refl
before-append stop [] (c ∷ cs) h k = rw k
before-append stop (x ∷ xs) rest h k = rw (h.0, before-append stop xs rest h.1 k)

pub from-append :
    (stop : ℕ → Bool) (xs rest : Bytes)
    → Avoids stop xs
    → StopsAt stop rest
    → from stop (xs ++ rest) ≡ rest
unfolding from
from-append stop [] [] h k = refl
from-append stop [] (c ∷ cs) h k = rw k
from-append stop (x ∷ xs) rest h k = rw (h.0, from-append stop xs rest h.1 k)

-- The components of a URL. What is not there leaves its separator out.
pub record Components : Type 0 where
  pub scheme : Bytes
  pub hostname : Bytes
  pub port : Option Bytes
  pub path : Option Bytes
  pub query : Option Bytes
  pub tag : Option Bytes

abbrev pub tag_text : Option Bytes → Bytes
tag_text none = []
tag_text (some t) = b'#' ∷ t

abbrev pub query_text : Option Bytes → Bytes → Bytes
query_text none rest = rest
query_text (some q) rest = b'?' ∷ (q ++ rest)

abbrev pub path_text : Option Bytes → Bytes → Bytes
path_text none rest = rest
path_text (some p) rest = b'/' ∷ (p ++ rest)

abbrev pub port_text : Option Bytes → Bytes → Bytes
port_text none rest = rest
port_text (some p) rest = b':' ∷ (p ++ rest)

-- The URL that is written from the components.
abbrev pub render : Components → Bytes
render k =
    k.scheme
    ++ b':'
      ∷ b'/'
      ∷ b'/'
      ∷ (k.hostname ++ port_text k.port (path_text k.path (query_text k.query (tag_text k.tag))))

abbrev pub AvoidsOpt : (ℕ → Bool) → Option Bytes → Type 0
AvoidsOpt stop none = Unit {0}
AvoidsOpt stop (some t) = Avoids stop t

abbrev pub TagFollows : Option Bytes → Option Bytes → Option Bytes → Type 0
TagFollows none none (some t) = ⊥
TagFollows _ _ _ = Unit {0}

-- No component holds a character that ends it, the scheme holds no space and no slash, and a tag
-- stands behind a path or a query.
pub record IsPlain (k : Components) : Type 0 where
  pub plain_scheme : All (λ c. (ends_scheme c || c == b' ' || c == b'/') ≡ false) k.scheme
  pub plain_hostname : All (λ c. ends_hostname c ≡ false) k.hostname
  pub plain_port : AvoidsOpt ends_port k.port
  pub plain_path : AvoidsOpt ends_path k.path
  pub plain_query : AvoidsOpt ends_query k.query
  pub plain_tag : AvoidsOpt (λ c. c == 0) k.tag
  pub tag_follows : TagFollows k.path k.query k.tag

abbrev pub text_of : Option Bytes → Bytes
text_of none = []
text_of (some t) = t
