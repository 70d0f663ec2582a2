-- ===== src/Http/Parser/Refine.antt =====
-- The parser over a `Buffer` against the parser over its unread bytes.
use tzzero_http.Prelude.{
  ℕ, zero, suc, ◌+◌, ◌<◌, ◌≡◌, ◌≢◌, refl, sym, ap, ◌∙◌, arith, inl, inr, false, some, ◌++◌, Bytes,
  length, Option-cases, Bool-cases, ltb, ltb→le, subst,
}
use tzzero_http.Buffer.{Buffer, find_crlf, to_string, readable_bytes, retrieve_as_string, append}
use tzzero_http.Buffer.Bounds.{IsValid, retrieve-IsValid, append-IsValid, max_size}
use tzzero_http.Buffer.Contents.{
  to_string-retrieve, peek_string-take, length-to_string, to_string-append,
}
use tzzero_http.Buffer.Search.{find_crlf-to_string, search_crlf_splits}
use tzzero_http.Http.Request.{
  HttpRequest, ParseState, parse_request_line, parse_headers, parse_body, parse_complete,
  parse_error,
}
use tzzero_http.Http.Parser.{
  HttpParser, Progress, again, line_round, body_round, round, parse_loop, parse_request, Outcome,
  on_request_line, on_headers_line, outcome,
}
use tzzero_http.Http.Parser.Rounds
use tzzero_http.Http.Parser.Stream
use tzzero_http.Http.Parser.Rounds.{Verdict-cases, round_shrinks}
use tzzero_http.Http.Parser.Chunks.{Waits, Decided, parse_request_resumes, parse_request-Decided}

-- What a caller sees of an outcome: the bytes that are left, wherever they stand in the vector.
abbrev pub view : Outcome → Stream.Outcome
view o = record {
  returned = o.returned;
  parser = o.parser;
  request = o.request;
  rest = to_string o.rest;
}

abbrev Refines : Progress × Buffer → Progress × Bytes → Type 0
Refines a c = IsValid a.1 × ((a.0, to_string a.1) ≡ c)

module _ (b : Buffer) (p : HttpParser) (r : HttpRequest) (v : IsValid b) where
  line_round-Refines :
      (handle : Bytes → HttpParser → HttpRequest → Progress)
      → Refines (line_round handle b p r) (Stream.line_round handle (to_string b) p r)
  unfolding line_round Stream.line_round
  line_round-Refines handle = elim (Option-cases (find_crlf b)) [
    | inl e ↦ rw (e, sym (find_crlf-to_string b v) ∙ e, line_round, Stream.line_round) (v, refl)
    | inr (n, e) ↦
        let found = sym (find_crlf-to_string b v) ∙ e in
        let bound = (search_crlf_splits (to_string b) n found).1 in
        rw (e, found, line_round, Stream.line_round)
          (
            retrieve-IsValid v (n + 2),
            rw (
              peek_string-take v n (omega (arith, length-to_string b v)),
              to_string-retrieve v (n + 2),
            ),
          )
  ]

  body_round-Refines : Refines (body_round b p r) (Stream.body_round (to_string b) p r)
  unfolding body_round Stream.body_round retrieve_as_string
  body_round-Refines = elim (Bool-cases (ltb (readable_bytes b) p.content_length)) [
    | inl e ↦ rw (length-to_string b v, e) (v, refl)
    | inr e ↦
        rw (length-to_string b v, e)
          (
            retrieve-IsValid v p.content_length,
            rw (
              peek_string-take v p.content_length (ltb→le (readable_bytes b) p.content_length e),
              to_string-retrieve v p.content_length,
            ),
          )
  ]

  round-Refines : (t : ParseState) → Refines (round t b p r) (Stream.round t (to_string b) p r)
  unfolding round Stream.round
  round-Refines parse_request_line = line_round-Refines on_request_line
  round-Refines parse_headers = line_round-Refines on_headers_line
  round-Refines parse_body = body_round-Refines
  round-Refines parse_complete = (v, refl)
  round-Refines parse_error = (v, refl)

module _ (fuel : ℕ) (b : Buffer) (p : HttpParser) (r : HttpRequest) where
  loop_again :
      (round r.parse_state b p r).0.verdict ≡ again
      → parse_loop (suc fuel) b p r
        ≡ parse_loop fuel
            (round r.parse_state b p r).1
            (round r.parse_state b p r).0.parser
            (round r.parse_state b p r).0.request
  unfolding parse_loop
  loop_again h = rw (h, parse_loop)

  loop_stop :
      (round r.parse_state b p r).0.verdict ≢ again
      → parse_loop (suc fuel) b p r
        ≡ some (outcome (round r.parse_state b p r).0 (round r.parse_state b p r).1)
  unfolding parse_loop
  loop_stop h = ground arith

-- A loop with enough fuel returns, its buffer is in order, and what it returns is what the loop over
-- the bytes returns.
abbrev Returns : ℕ → Buffer → HttpParser → HttpRequest → Type 0
Returns fuel b p r =
    (o : Outcome) × (parse_loop fuel b p r ≡ some o)
    × IsValid o.rest
    × (Stream.parse_loop fuel (to_string b) p r ≡ some (view o))

loop_refines :
    (fuel : ℕ) (b : Buffer) (p : HttpParser) (r : HttpRequest)
    → IsValid b
    → length (to_string b) < fuel
    → Returns fuel b p r
loop_refines zero b p r v h = absurd (omega arith)
loop_refines (suc fuel) b p r v h = elim (Verdict-cases g.verdict) [
  | inl e ↦
      let e' = ap (λ x. x.0.verdict) (sym eq) ∙ e in
      let (o, run, valid, same) = loop_refines fuel b' g.parser g.request step.0 (shorter e') in
      (
        o,
        loop_again fuel b p r e ∙ run,
        valid,
        Rounds.loop_again fuel (to_string b) p r e'
            ∙ ap (λ x. Stream.parse_loop fuel x.1 x.0.parser x.0.request) (sym eq)
            ∙ same,
      )
  | inr n ↦ (
    outcome g b',
    loop_stop fuel b p r n,
    step.0,
    Rounds.loop_stop fuel (to_string b) p r (λ q. n (ap (λ x. x.0.verdict) eq ∙ q))
        ∙ ap (λ x. some (Stream.outcome x.0 x.1)) (sym eq),
  )
]
  where
    g : Progress
    g = (round r.parse_state b p r).0

    b' : Buffer
    b' = (round r.parse_state b p r).1

    step : Refines (g, b') (Stream.round r.parse_state (to_string b) p r)
    step = round-Refines b p r v r.parse_state

    eq : (g, to_string b') ≡ Stream.round r.parse_state (to_string b) p r
    eq = step.1

    shorter :
        (Stream.round r.parse_state (to_string b) p r).0.verdict ≡ again
        → length (to_string b') < fuel
    shorter e' =
        omega (arith, round_shrinks r.parse_state (to_string b) p r e', ap (λ x. length x.1) eq)

-- On a buffer whose indices are in order the parser returns, leaves such a buffer, and gives what
-- the parser over the unread bytes gives.
pub parse_request_refines :
    (b : Buffer) (p : HttpParser) (r : HttpRequest)
    → IsValid b
    → (o : Outcome) × (parse_request b p r ≡ some o)
      × IsValid o.rest
      × (Stream.parse_request (to_string b) p r ≡ some (view o))
unfolding parse_request Stream.parse_request
parse_request_refines b p r v =
    rw (length-to_string b v)
      (loop_refines (suc (readable_bytes b)) b p r v (omega (arith, length-to_string b v)))

some_injective : {a b : Outcome} → some a ≡ some b → a ≡ b
some_injective h = cc

-- A call that returned left a buffer in order, and did what the parser over the bytes does.
pub parse_request_seen :
    (b : Buffer) (p : HttpParser) (r : HttpRequest) (o : Outcome)
    → IsValid b
    → parse_request b p r ≡ some o
    → IsValid o.rest × (Stream.parse_request (to_string b) p r ≡ some (view o))
parse_request_seen b p r o v h =
    let (a, run, valid, same) = parse_request_refines b p r v in
    subst (λ x. IsValid x.rest × (Stream.parse_request (to_string b) p r ≡ some (view x)))
      (some_injective (sym run ∙ h)) (valid, same)

-- A request may arrive in any pieces. If a call waits, then the next call, made with the parser, the
-- request and the buffer that it left and more bytes appended, shows what one call on all the bytes
-- shows.
pub parse_request_pieces :
    (b : Buffer) (more : Bytes) (p : HttpParser) (r : HttpRequest) (o whole last : Outcome)
    → IsValid b
    → b.write_index + length more < max_size
    → parse_request b p r ≡ some o
    → Waits (view o)
    → o.rest.write_index + length more < max_size
    → parse_request (append b more) p r ≡ some whole
    → parse_request (append o.rest more) o.parser o.request ≡ some last
    → view whole ≡ view last
parse_request_pieces b more p r o whole last v fits h w fits' all next =
    let first = parse_request_seen b p r o v h in
    let once = parse_request_seen (append b more) p r whole (append-IsValid b more v fits) all in
    let then_ =
      parse_request_seen (append o.rest more) o.parser o.request last
        (append-IsValid o.rest more first.0 fits') next in
    view_injective (
      sym once.1
      ∙ ap (λ s. Stream.parse_request s p r) (to_string-append b more v fits)
      ∙ parse_request_resumes (to_string b) more p r (view o) first.1 w
      ∙ ap (λ s. Stream.parse_request s o.parser o.request)
          (sym (to_string-append o.rest more first.0 fits'))
      ∙ then_.1)
  where
    view_injective : some (view whole) ≡ some (view last) → view whole ≡ view last
    view_injective q = cc

-- A call that succeeded or failed did not depend on what comes later: with more bytes behind it, the
-- same call shows the same parser, request and result, and leaves those bytes too. The condition is
-- that no earlier call failed.
pub parse_request_final :
    (b : Buffer) (more : Bytes) (p : HttpParser) (r : HttpRequest) (o : Outcome)
    → IsValid b
    → b.write_index + length more < max_size
    → p.has_error ≡ false
    → parse_request b p r ≡ some o
    → Decided (view o)
    → (whole : Outcome) × (parse_request (append b more) p r ≡ some whole)
      × (view whole ≡ record (view o) { rest = to_string o.rest ++ more })
parse_request_final b more p r o v fits clean h d =
    let first = parse_request_seen b p r o v h in
    let (whole, run, valid, same) =
      parse_request_refines (append b more) p r (append-IsValid b more v fits) in
    (
      whole,
      run,
      outcome_injective (
          sym same
          ∙ ap (λ s. Stream.parse_request s p r) (to_string-append b more v fits)
          ∙ parse_request-Decided (to_string b) more p r (view o) clean first.1 d),
    )
  where
    outcome_injective : {x y : Stream.Outcome} → some x ≡ some y → x ≡ y
    outcome_injective q = cc
