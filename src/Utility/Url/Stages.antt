-- ===== src/Utility/Url/Stages.antt =====
-- The rounds of the constructor's loop from each component on, to the end of the text.
use open_esl.Prelude.{
  ℕ, zero, suc, ◌≡◌, refl, sym, ap, ◌∙◌, Option, none, some, [], ◌∷◌, ◌++◌, append-nil, ◌==◌, Bytes,
}
use open_esl.Utility.Url.{
  NextFragment, scheme, hostname, port, path, query, tag, empty, Url, before, ends_hostname,
  ends_port, ends_path, ends_query, parse_fragment, parse_loop,
}
use open_esl.Utility.Url.Render.{
  Avoids, AvoidsOpt, TagFollows, before-append, from-append, tag_text, query_text, path_text,
  port_text, text_of,
}

-- The loop ends with the members of `w`.
abbrev pub SameMembers : Url → Url → Type 0
SameMembers v w =
    (v.scheme ≡ w.scheme)
    × (v.hostname ≡ w.hostname)
    × (v.port ≡ w.port)
    × (v.path ≡ w.path)
    × (v.query ≡ w.query)
    × (v.tag ≡ w.tag)

abbrev pub Ends : ℕ → NextFragment → Url → Url → Type 0
Ends fuel next u w = (v : Url) × (parse_loop fuel next u ≡ some v) × SameMembers v w

pub parse_loop-empty : (fuel : ℕ) (u : Url) → parse_loop fuel empty u ≡ some u
unfolding parse_loop
parse_loop-empty zero u = refl
parse_loop-empty (suc fuel) u = refl

pub parse_loop-step :
    (fuel : ℕ) (next : NextFragment) (u : Url)
    → parse_loop (suc fuel) next u
      ≡ parse_loop fuel (parse_fragment next u).0 (parse_fragment next u).1
unfolding parse_loop
parse_loop-step fuel empty u = sym (parse_loop-empty fuel u)
parse_loop-step fuel scheme u = refl
parse_loop-step fuel hostname u = refl
parse_loop-step fuel port u = refl
parse_loop-step fuel path u = refl
parse_loop-step fuel query u = refl
parse_loop-step fuel tag u = refl

-- One round of the loop.
pub advance :
    (fuel : ℕ) (next : NextFragment) (u : Url) {n : NextFragment} {v : Url} (w : Url)
    → parse_fragment next u ≡ (n, v)
    → Ends fuel n v w
    → Ends (suc fuel) next u w
advance fuel next u w e (x, ends, same) =
    (x, parse_loop-step fuel next u ∙ ap (λ r. parse_loop fuel r.0 r.1) e ∙ ends, same)

abbrev pub at : Bytes → Bytes → Bytes → Bytes → Bytes → Bytes → Bytes → Url
at rest s h po pa q t = record {
  rest = rest;
  scheme = s;
  hostname = h;
  port = po;
  path = pa;
  query = q;
  tag = t;
}

done :
    (fuel : ℕ) (rest s h po pa q t : Bytes)
    → Ends fuel empty (at rest s h po pa q t) (at [] s h po pa q t)
done fuel rest s h po pa q t =
    (at rest s h po pa q t, parse_loop-empty fuel _, (refl, refl, refl, refl, refl, refl))

module _ (s h : Bytes) where
  tag_end :
      (fuel : ℕ) (po pa q t : Bytes)
      → Avoids (λ c. c == 0) t
      → Ends (suc fuel) tag (at t s h po pa q []) (at [] s h po pa q t)
  unfolding parse_fragment
  tag_end fuel po pa q t k =
      advance fuel tag _ (at [] s h po pa q t)
        (ap (λ b. (empty, at t s h po pa q b))
          (ap (before (λ c. c == 0)) (sym (append-nil t)) ∙ before-append (λ c. c == 0) t [] k tt))
        (done fuel t s h po pa q t)

  query_end :
      (fuel : ℕ) (po pa q : Bytes) (t : Option Bytes)
      → Avoids ends_query q
      → AvoidsOpt (λ c. c == 0) t
      → Ends
          (suc (suc fuel))
          query
          (at (q ++ tag_text t) s h po pa [] [])
          (at [] s h po pa q (text_of t))
  unfolding parse_fragment
  query_end fuel po pa q none a b =
      advance (suc fuel) query _ (at [] s h po pa q [])
        (rw (from-append ends_query q [] a tt, before-append ends_query q [] a tt))
        (done (suc fuel) [] s h po pa q [])
  query_end fuel po pa q (some t) a b =
      advance (suc fuel) query _ (at [] s h po pa q t)
        (rw (
          from-append ends_query q (b'#' ∷ t) a refl,
          before-append ends_query q (b'#' ∷ t) a refl,
        ))
        (tag_end fuel po pa q t b)

  path_end :
      (fuel : ℕ) (po p : Bytes) (q t : Option Bytes)
      → Avoids ends_path p
      → AvoidsOpt ends_query q
      → AvoidsOpt (λ c. c == 0) t
      → Ends
          (suc (suc (suc fuel)))
          path
          (at (p ++ query_text q (tag_text t)) s h po [] [] [])
          (at [] s h po p (text_of q) (text_of t))
  unfolding parse_fragment
  path_end fuel po p none none a b c =
      advance (suc (suc fuel)) path _ (at [] s h po p [] [])
        (rw (from-append ends_path p [] a tt, before-append ends_path p [] a tt))
        (done (suc (suc fuel)) [] s h po p [] [])
  path_end fuel po p none (some t) a b c =
      let rest = b'#' ∷ t in
      advance (suc (suc fuel)) path _ (at [] s h po p [] t)
        (rw (from-append ends_path p rest a refl, before-append ends_path p rest a refl))
        (tag_end (suc fuel) po p [] t c)
  path_end fuel po p (some q) t a b c =
      let rest = b'?' ∷ (q ++ tag_text t) in
      advance (suc (suc fuel)) path _ (at [] s h po p q (text_of t))
        (rw (from-append ends_path p rest a refl, before-append ends_path p rest a refl))
        (query_end fuel po p q t b c)

  port_end :
      (fuel : ℕ) (po : Bytes) (p q t : Option Bytes)
      → Avoids ends_port po
      → AvoidsOpt ends_path p
      → AvoidsOpt ends_query q
      → AvoidsOpt (λ c. c == 0) t
      → TagFollows p q t
      → Ends
          (suc (suc (suc (suc fuel))))
          port
          (at (po ++ path_text p (query_text q (tag_text t))) s h [] [] [] [])
          (at [] s h po (text_of p) (text_of q) (text_of t))
  unfolding parse_fragment
  port_end fuel po none none none o a b c f =
      advance (suc (suc (suc fuel))) port _ (at [] s h po [] [] [])
        (rw (from-append ends_port po [] o tt, before-append ends_port po [] o tt))
        (done (suc (suc (suc fuel))) [] s h po [] [] [])
  port_end fuel po none none (some t) o a b c f = elim f [ ]
  port_end fuel po none (some q) t o a b c f =
      let rest = b'?' ∷ (q ++ tag_text t) in
      advance (suc (suc (suc fuel))) port _ (at [] s h po [] q (text_of t))
        (rw (from-append ends_port po rest o refl, before-append ends_port po rest o refl))
        (query_end (suc fuel) po [] q t b c)
  port_end fuel po (some p) q t o a b c f =
      let rest = b'/' ∷ (p ++ query_text q (tag_text t)) in
      advance (suc (suc (suc fuel))) port _ (at [] s h po p (text_of q) (text_of t))
        (rw (from-append ends_port po rest o refl, before-append ends_port po rest o refl))
        (path_end fuel po p q t a b c)

  pub hostname_end :
      (fuel : ℕ) (po p q t : Option Bytes)
      → Avoids ends_hostname h
      → AvoidsOpt ends_port po
      → AvoidsOpt ends_path p
      → AvoidsOpt ends_query q
      → AvoidsOpt (λ c. c == 0) t
      → TagFollows p q t
      → Ends
          (suc (suc (suc (suc (suc fuel)))))
          hostname
          (at (h ++ port_text po (path_text p (query_text q (tag_text t)))) s [] [] [] [] [])
          (at [] s h (text_of po) (text_of p) (text_of q) (text_of t))
  unfolding parse_fragment
  hostname_end fuel none none none none n o a b c f =
      advance (suc (suc (suc (suc fuel)))) hostname _ (at [] s h [] [] [] [])
        (rw (from-append ends_hostname h [] n tt, before-append ends_hostname h [] n tt))
        (done (suc (suc (suc (suc fuel)))) [] s h [] [] [] [])
  hostname_end fuel none none none (some t) n o a b c f = elim f [ ]
  hostname_end fuel none none (some q) t n o a b c f =
      let rest = b'?' ∷ (q ++ tag_text t) in
      advance (suc (suc (suc (suc fuel)))) hostname _ (at [] s h [] [] q (text_of t))
        (rw (from-append ends_hostname h rest n refl, before-append ends_hostname h rest n refl))
        (query_end (suc (suc fuel)) [] [] q t b c)
  hostname_end fuel none (some p) q t n o a b c f =
      let rest = b'/' ∷ (p ++ query_text q (tag_text t)) in
      advance (suc (suc (suc (suc fuel)))) hostname _ (at [] s h [] p (text_of q) (text_of t))
        (rw (from-append ends_hostname h rest n refl, before-append ends_hostname h rest n refl))
        (path_end (suc fuel) [] p q t a b c)
  hostname_end fuel (some po) p q t n o a b c f =
      let rest = b':' ∷ (po ++ path_text p (query_text q (tag_text t))) in
      advance (suc (suc (suc (suc fuel)))) hostname _
        (at [] s h po (text_of p) (text_of q) (text_of t))
        (rw (from-append ends_hostname h rest n refl, before-append ends_hostname h rest n refl))
        (port_end fuel po p q t o a b c f)
