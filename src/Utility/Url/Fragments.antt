-- ===== src/Utility/Url/Fragments.antt =====
-- The loop of the constructor ends: each fragment is followed by a later one.
use open_esl.Prelude.{
  Bytes, ℕ, ℕ, zero, suc, ◌-◌, ◌≤◌, ◌≡◌, refl, some, [], ◌∷◌, ◌++◌, arith, Bytes,
}
use open_esl.Utility.Url.{
  ends_scheme, not_space, NextFragment, scheme, hostname, port, path, query, tag, empty, Url,
  before, from, after_scheme, parse_scheme, parse_hostname, parse_port, parse_path, parse_query,
  parse_tag, parse_fragment, parse_loop, fresh, parse,
}

-- How many fragments may still follow.
abbrev rank : NextFragment → ℕ
rank scheme = 6
rank hostname = 5
rank port = 4
rank path = 3
rank query = 2
rank tag = 1
rank empty = 0

after_scheme-rank : (u : Url) (text rest : Bytes) → rank (after_scheme u text rest).0 ≤ 5
unfolding after_scheme
after_scheme-rank u text [] = omega arith
after_scheme-rank u text (a ∷ []) = omega arith
after_scheme-rank u text (a ∷ (b ∷ [])) = omega arith
after_scheme-rank u text (a ∷ (b ∷ (c ∷ cs))) = ground arith

parse_scheme-rank : (u : Url) → rank (parse_scheme u).0 ≤ 5
unfolding parse_scheme
parse_scheme-rank u = ground (
  arith,
  after_scheme-rank u (before not_space u.rest ++ before ends_scheme (from not_space u.rest))
      (from ends_scheme (from not_space u.rest)),
)

parse_fragment-rank :
    (next : NextFragment) (u : Url) → rank (parse_fragment next u).0 ≤ rank next - 1
unfolding parse_fragment
parse_fragment-rank scheme u = parse_scheme-rank u
parse_fragment-rank hostname u = unfold parse_hostname in ground arith
parse_fragment-rank port u = unfold parse_port in ground arith
parse_fragment-rank path u = unfold parse_path in ground arith
parse_fragment-rank query u = unfold parse_query in ground arith
parse_fragment-rank tag u = unfold parse_tag in omega arith
parse_fragment-rank empty u = omega arith

parse_loop-total :
    (fuel : ℕ) (next : NextFragment) (u : Url)
    → rank next ≤ fuel
    → (v : Url) × (parse_loop fuel next u ≡ some v)
unfolding parse_loop
parse_loop-total fuel empty u h = (u, refl)
parse_loop-total zero scheme u h = absurd (omega arith)
parse_loop-total zero hostname u h = absurd (omega arith)
parse_loop-total zero port u h = absurd (omega arith)
parse_loop-total zero path u h = absurd (omega arith)
parse_loop-total zero query u h = absurd (omega arith)
parse_loop-total zero tag u h = absurd (omega arith)
parse_loop-total (suc fuel) next u h =
    parse_loop-total fuel (parse_fragment next u).0 (parse_fragment next u).1
      (omega (arith, parse_fragment-rank next u))

-- The constructor of a URL comes to an end on every text: its loop leaves after six rounds at
-- most.
parse-total : (text : Bytes) → (u : Url) × (parse text ≡ some u)
unfolding parse
parse-total text = parse_loop-total 6 scheme (fresh text) (omega arith)
