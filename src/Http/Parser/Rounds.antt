-- ===== src/Http/Parser/Rounds.antt =====
-- Facts on one round of the parser's loop, and on the loop by its rounds.
use tzzero_http.Prelude.{
  ℕ, suc, ◌+◌, ◌≤◌, ◌≡◌, ◌≢◌, refl, arith, inl, inr, ◌⊎◌, true, ltb, some, ◌++◌, Bytes, length,
  take, Option-cases, Bool-cases, ltb→le, length-drop, take-append, drop-append, length-append,
  le→ltb,
}
use tzzero_http.Buffer.{search_crlf}
use tzzero_http.Buffer.Search.{search_crlf_splits, search_crlf-append_found}
use tzzero_http.Http.Request.{
  HttpRequest, ParseState, parse_request_line, parse_headers, parse_body, parse_complete,
  parse_error,
}
use tzzero_http.Http.Parser.{
  HttpParser, Progress, Verdict, again, complete, incomplete, broken, on_request_line,
  on_headers_line, on_body, stay,
}
use tzzero_http.Http.Parser.Stream.{outcome, line_round, body_round, round, parse_loop}

pub Verdict-split : (v : Verdict) → (v ≡ again) ⊎ (v ≡ complete) ⊎ (v ≡ incomplete) ⊎ (v ≡ broken)
Verdict-split v = ground arith

pub Verdict-cases : (v : Verdict) → (v ≡ again) ⊎ (v ≢ again)
Verdict-cases again = inl refl
Verdict-cases complete = inr (λ e. cc)
Verdict-cases incomplete = inr (λ e. cc)
Verdict-cases broken = inr (λ e. cc)

-- No line handler waits for more bytes, and the flag is raised just by a failure.
abbrev Decides : HttpParser → Progress → Type 0
Decides p g =
    (g.verdict ≢ incomplete)
    × (g.verdict ≡ broken → g.parser.has_error ≡ true)
    × (g.verdict ≢ broken → g.parser.has_error ≡ p.has_error)

on_request_line-Decides :
    (line : Bytes) (p : HttpParser) (r : HttpRequest) → Decides p (on_request_line line p r)
unfolding on_request_line
on_request_line-Decides line p r = (ground arith, ground arith, ground arith)

on_headers_line-Decides :
    (line : Bytes) (p : HttpParser) (r : HttpRequest) → Decides p (on_headers_line line p r)
unfolding on_headers_line
on_headers_line-Decides line p r = (ground arith, ground arith, ground arith)

module _ (handle : Bytes → HttpParser → HttpRequest → Progress)
    (decides : (line : Bytes) (p : HttpParser) (r : HttpRequest) → Decides p (handle line p r))
    (s : Bytes) (p : HttpParser) (r : HttpRequest) where
  line_round_shrinks :
      (line_round handle s p r).0.verdict ≡ again
      → length (line_round handle s p r).1 + 2 ≤ length s
  unfolding line_round
  line_round_shrinks h = elim (Option-cases (search_crlf s)) [
    | inl e ↦ absurd (ground (arith, e))
    | inr (n, e) ↦
        rw (e, line_round) (omega (arith, length-drop (n + 2) s, (search_crlf_splits s n e).1))
  ]

  line_round_incomplete :
      (line_round handle s p r).0.verdict ≡ incomplete
      → line_round handle s p r ≡ (stay incomplete p r, s)
  unfolding line_round
  line_round_incomplete h = elim (Option-cases (search_crlf s)) [
    | inl e ↦ rw (e, line_round)
    | inr (n, e) ↦ absurd ((decides (take n s) p r).0 (rw (e, line_round) at h))
  ]

  line_round_broken :
      (line_round handle s p r).0.verdict ≡ broken
      → (line_round handle s p r).0.parser.has_error ≡ true
  unfolding line_round
  line_round_broken h = elim (Option-cases (search_crlf s)) [
    | inl e ↦ absurd (ground (arith, e))
    | inr (n, e) ↦ rw (e, line_round) ((decides (take n s) p r).1 (rw (e, line_round) at h))
  ]

  line_round_flag :
      (line_round handle s p r).0.verdict ≢ broken
      → (line_round handle s p r).0.parser.has_error ≡ p.has_error
  unfolding line_round
  line_round_flag h = elim (Option-cases (search_crlf s)) [
    | inl e ↦ rw (e, line_round)
    | inr (n, e) ↦ rw (e, line_round) ((decides (take n s) p r).2 (rw (e, line_round) at h))
  ]

  -- With more bytes behind, a round that did not wait does the same.
  line_round-append :
      (more : Bytes)
      → (line_round handle s p r).0.verdict ≢ incomplete
      → line_round handle (s ++ more) p r
        ≡ ((line_round handle s p r).0, (line_round handle s p r).1 ++ more)
  unfolding line_round
  line_round-append more h = elim (Option-cases (search_crlf s)) [
    | inl e ↦ absurd (ground (arith, e))
    | inr (n, e) ↦
        let bound = (search_crlf_splits s n e).1 in
        rw (search_crlf-append_found s more n e, e, line_round)
          (rw (take-append n s more (omega arith), drop-append (n + 2) s more bound))
  ]

module _ (s : Bytes) (p : HttpParser) (r : HttpRequest) where
  body_round_incomplete :
      (body_round s p r).0.verdict ≡ incomplete → body_round s p r ≡ (stay incomplete p r, s)
  unfolding body_round on_body
  body_round_incomplete h = ground arith

  body_round-append :
      (more : Bytes)
      → (body_round s p r).0.verdict ≢ incomplete
      → body_round (s ++ more) p r ≡ ((body_round s p r).0, (body_round s p r).1 ++ more)
  unfolding body_round
  body_round-append more h = elim (Bool-cases (ltb (length s) p.content_length)) [
    | inl e ↦ absurd (h (rw (e, body_round)))
    | inr e ↦
        let bound = ltb→le (length s) p.content_length e in
        rw (e, le→ltb (length (s ++ more)) p.content_length (omega (arith, length-append s more)))
          (rw
            (take-append p.content_length s more bound, drop-append p.content_length s more bound))
  ]

-- A round that goes on has taken two bytes at least.
pub round_shrinks :
    (t : ParseState) (s : Bytes) (p : HttpParser) (r : HttpRequest)
    → (round t s p r).0.verdict ≡ again
    → length (round t s p r).1 + 2 ≤ length s
unfolding round
round_shrinks parse_request_line s p r h =
    line_round_shrinks on_request_line on_request_line-Decides s p r h
round_shrinks parse_headers s p r h =
    line_round_shrinks on_headers_line on_headers_line-Decides s p r h
round_shrinks parse_body s p r h = absurd (unfold body_round on_body in ground arith)
round_shrinks parse_complete s p r h = cc
round_shrinks parse_error s p r h = cc

-- A round that waits has changed nothing.
pub round_incomplete :
    (t : ParseState) (s : Bytes) (p : HttpParser) (r : HttpRequest)
    → (round t s p r).0.verdict ≡ incomplete
    → round t s p r ≡ (stay incomplete p r, s)
unfolding round
round_incomplete parse_request_line s p r h =
    line_round_incomplete on_request_line on_request_line-Decides s p r h
round_incomplete parse_headers s p r h =
    line_round_incomplete on_headers_line on_headers_line-Decides s p r h
round_incomplete parse_body s p r h = body_round_incomplete s p r h
round_incomplete parse_complete s p r h = cc
round_incomplete parse_error s p r h = cc

pub round_broken :
    (t : ParseState) (s : Bytes) (p : HttpParser) (r : HttpRequest)
    → (round t s p r).0.verdict ≡ broken
    → (round t s p r).0.parser.has_error ≡ true
unfolding round
round_broken parse_request_line s p r h =
    line_round_broken on_request_line on_request_line-Decides s p r h
round_broken parse_headers s p r h =
    line_round_broken on_headers_line on_headers_line-Decides s p r h
round_broken parse_body s p r h = absurd (unfold body_round on_body in ground arith)
round_broken parse_complete s p r h = cc
round_broken parse_error s p r h = refl

pub round_flag :
    (t : ParseState) (s : Bytes) (p : HttpParser) (r : HttpRequest)
    → (round t s p r).0.verdict ≢ broken
    → (round t s p r).0.parser.has_error ≡ p.has_error
unfolding round
round_flag parse_request_line s p r h =
    line_round_flag on_request_line on_request_line-Decides s p r h
round_flag parse_headers s p r h = line_round_flag on_headers_line on_headers_line-Decides s p r h
round_flag parse_body s p r h = unfold body_round on_body in ground arith
round_flag parse_complete s p r h = refl
round_flag parse_error s p r h = absurd (h refl)

pub round-append :
    (t : ParseState) (s more : Bytes) (p : HttpParser) (r : HttpRequest)
    → (round t s p r).0.verdict ≢ incomplete
    → round t (s ++ more) p r ≡ ((round t s p r).0, (round t s p r).1 ++ more)
unfolding round
round-append parse_request_line s more p r h =
    line_round-append on_request_line on_request_line-Decides s p r more h
round-append parse_headers s more p r h =
    line_round-append on_headers_line on_headers_line-Decides s p r more h
round-append parse_body s more p r h = body_round-append s p r more h
round-append parse_complete s more p r h = refl
round-append parse_error s more p r h = refl

module _ (fuel : ℕ) (s : Bytes) (p : HttpParser) (r : HttpRequest) where
  pub loop_again :
      (round r.parse_state s p r).0.verdict ≡ again
      → parse_loop (suc fuel) s p r
        ≡ parse_loop fuel
            (round r.parse_state s p r).1
            (round r.parse_state s p r).0.parser
            (round r.parse_state s p r).0.request
  unfolding parse_loop
  loop_again h = rw (h, parse_loop)

  pub loop_stop :
      (round r.parse_state s p r).0.verdict ≢ again
      → parse_loop (suc fuel) s p r
        ≡ some (outcome (round r.parse_state s p r).0 (round r.parse_state s p r).1)
  unfolding parse_loop
  loop_stop h = ground arith
