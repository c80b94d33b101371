-- ===== src/Utility/Url.antt =====
-- esl/src/esl/utility/URL.h and URL.cpp. A position `pos` into `str` is the rest of the text from
-- there: `pos < len` is a rest that is not empty, and `str[len]` is the zero byte of `c_str`.
pub mod Fragments
pub mod Render
pub mod Stages
pub mod Components
mod Tests
use open_esl.Prelude.{
  ℕ, zero, suc, ◌+◌, Bool, not, ◌||◌, Option, none, some, [], ◌∷◌, ◌++◌, ◌==◌, if◌then◌else◌, drop,
  is_empty, Bytes,
}

pub data NextFragment : Type 0 where
  scheme hostname port path query tag empty : NextFragment

-- The members that the constructor fills, with the rest of the text that is still to read. The
-- `Protocol` of the scheme holds its text; `Protocol()` is the empty one.
pub record Url : Type 0 where
  pub rest : Bytes
  pub scheme : Bytes
  pub hostname : Bytes
  pub port : Bytes
  pub path : Bytes
  pub query : Bytes
  pub tag : Bytes

-- `for(;pos<len && !stop(str[pos]);pos++)`: what the loop passes over, and where it stops.
unfoldable pub before : (ℕ → Bool) → Bytes → Bytes
before stop [] = []
before stop (c ∷ cs) = if stop c then [] else c ∷ before stop cs

unfoldable pub from : (ℕ → Bool) → Bytes → Bytes
from stop [] = []
from stop (c ∷ cs) = if stop c then c ∷ cs else from stop cs

-- `str[pos]`
abbrev pub peek : Bytes → ℕ
peek [] = 0
peek (c ∷ cs) = c

abbrev pub not_space : ℕ → Bool
not_space c = not (c == b' ')

abbrev pub ends_scheme : ℕ → Bool
ends_scheme c = c == b':'

abbrev pub ends_hostname : ℕ → Bool
ends_hostname c = c == b':' || c == b'/' || c == b'?'

abbrev pub ends_port : ℕ → Bool
ends_port c = c == b'/' || c == b'?'

abbrev pub ends_path : ℕ → Bool
ends_path c = c == b'?' || c == b'#'

abbrev pub ends_query : ℕ → Bool
ends_query c = c == b'#'

-- The three tests of `str[pos++]`, and the scheme if they pass.
unfoldable pub after_scheme : Url → Bytes → Bytes → NextFragment × Url
after_scheme u scheme_text (a ∷ (b ∷ (c ∷ cs))) =
    if not (a == b':') || not (b == b'/') || not (c == b'/')
    then (empty, u)
    else (hostname, record u { rest = cs; scheme = scheme_text })
after_scheme u scheme_text _ = (empty, u)

unfoldable pub parse_scheme : Url → NextFragment × Url
unfolding before from after_scheme
parse_scheme u =
    let spaces = before not_space u.rest in
    let start = from not_space u.rest in
    if peek start == b'/'
    then (path, record u { rest = drop 1 start; scheme = [] })
    else after_scheme u (spaces ++ before ends_scheme start) (from ends_scheme start)

unfoldable pub parse_hostname : Url → NextFragment × Url
unfolding before from
parse_hostname u =
    let end = from ends_hostname u.rest in
    let v = record u { hostname = before ends_hostname u.rest; rest = drop 1 end } in
    if is_empty end
    then (empty, v)
    else if peek end == b'/'
    then (path, v)
    else if peek end == b'?'
    then (query, v)
    else if peek end == b':'
    then (port, v)
    else (empty, v)

unfoldable pub parse_port : Url → NextFragment × Url
unfolding before from
parse_port u =
    let end = from ends_port u.rest in
    let v = record u { port = before ends_port u.rest; rest = drop 1 end } in
    if is_empty end
    then (empty, v)
    else if peek end == b'/'
    then (path, v)
    else if peek end == b'?'
    then (query, v)
    else (empty, v)

unfoldable pub parse_path : Url → NextFragment × Url
unfolding before from
parse_path u =
    let end = from ends_path u.rest in
    let v = record u { path = before ends_path u.rest; rest = drop 1 end } in
    if is_empty end
    then (empty, v)
    else if peek end == b'?'
    then (query, v)
    else if peek end == b'#'
    then (tag, v)
    else (empty, v)

unfoldable pub parse_query : Url → NextFragment × Url
unfolding before from
parse_query u =
    let end = from ends_query u.rest in
    let v = record u { query = before ends_query u.rest; rest = drop 1 end } in
    if is_empty end then (empty, v) else if peek end == b'#' then (tag, v) else (empty, v)

-- `std::string(&str[pos])` ends at the first zero byte.
unfoldable pub parse_tag : Url → NextFragment × Url
unfolding before
parse_tag u = (empty, record u { tag = before (λ c. c == 0) u.rest })

-- The `switch` of the constructor.
unfoldable pub parse_fragment : NextFragment → Url → NextFragment × Url
unfolding parse_scheme parse_hostname parse_port parse_path parse_query parse_tag
parse_fragment scheme u = parse_scheme u
parse_fragment hostname u = parse_hostname u
parse_fragment port u = parse_port u
parse_fragment path u = parse_path u
parse_fragment query u = parse_query u
parse_fragment tag u = parse_tag u
parse_fragment empty u = (empty, u)

-- The loop of the constructor, on fuel; `none` means that the fuel ran out.
unfoldable pub parse_loop : ℕ → NextFragment → Url → Option Url
unfolding parse_fragment
parse_loop fuel empty u = some u
parse_loop zero next u = none
parse_loop (suc fuel) next u =
    let (following, v) = parse_fragment next u in parse_loop fuel following v

abbrev pub fresh : Bytes → Url
fresh text = record {
  rest = text;
  scheme = [];
  hostname = [];
  port = [];
  path = [];
  query = [];
  tag = [];
}

-- The constructor `URL(std::string)`.
unfoldable pub parse : Bytes → Option Url
unfolding parse_loop
parse text = parse_loop 6 scheme (fresh text)
