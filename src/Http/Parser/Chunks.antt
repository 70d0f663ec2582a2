-- ===== src/Http/Parser/Chunks.antt =====
-- The parse of a request that arrives in pieces, over the unread bytes.
use tzzero_http.Prelude.{
  ℕ, zero, suc, ◌<◌, ◌≡◌, ◌≢◌, sym, ap, subst, ◌∙◌, arith, inl, inr, ◌⊎◌, true, false, some, ◌++◌,
  Bytes, length,
}
use tzzero_http.Http.Request.{HttpRequest}
use tzzero_http.Http.Parser.{HttpParser, Progress, again, incomplete, stay, is_complete}
use tzzero_http.Http.Parser.Rounds.{
  Verdict-cases, Verdict-split, round_flag, round_shrinks, round_incomplete, round_broken,
  round-append, loop_again, loop_stop,
}
use tzzero_http.Http.Parser.Stream.{Outcome, outcome, round, parse_loop, parse_request}

-- One more round of fuel than there are bytes is enough.
pub loop_total :
    (fuel : ℕ) (s : Bytes) (p : HttpParser) (r : HttpRequest)
    → length s < fuel
    → (o : Outcome) × (parse_loop fuel s p r ≡ some o)
loop_total zero s p r h = absurd (omega arith)
loop_total (suc fuel) s p r h =
    let (g, s') = round r.parse_state s p r in
    elim (Verdict-cases g.verdict) [
      | inl e ↦
          let (o, q) =
            loop_total fuel s' g.parser g.request
              (omega (arith, round_shrinks r.parse_state s p r e)) in
          (o, loop_again fuel s p r e ∙ q)
      | inr e ↦ (outcome g s', loop_stop fuel s p r e)
    ]

some_injective : {a b : Outcome} → some a ≡ some b → a ≡ b
some_injective h = cc

-- The result does not depend on the fuel.
pub loop_det :
    (f g : ℕ) (s : Bytes) (p : HttpParser) (r : HttpRequest) {a b : Outcome}
    → parse_loop f s p r ≡ some a
    → parse_loop g s p r ≡ some b
    → a ≡ b
loop_det zero g s p r h k = absurd (unfold parse_loop in cc)
loop_det (suc f) zero s p r h k = absurd (unfold parse_loop in cc)
loop_det (suc f) (suc g) s p r h k = elim (Verdict-cases (round r.parse_state s p r).0.verdict) [
  | inl e ↦
      loop_det f g (round r.parse_state s p r).1 (round r.parse_state s p r).0.parser
        (round r.parse_state s p r).0.request (sym (loop_again f s p r e) ∙ h)
        (sym (loop_again g s p r e) ∙ k)
  | inr e ↦ some_injective (sym h ∙ loop_stop f s p r e ∙ sym (loop_stop g s p r e) ∙ k)
]

pub request_loop :
    (f : ℕ) (s : Bytes) (p : HttpParser) (r : HttpRequest) {o : Outcome}
    → parse_loop f s p r ≡ some o
    → parse_request s p r ≡ some o
unfolding parse_request
request_loop f s p r h =
    let (a, q) = loop_total (suc (length s)) s p r (omega arith) in
    q ∙ ap some (loop_det (suc (length s)) f s p r q h)

abbrev extend : Outcome → Bytes → Outcome
extend o more = record o { rest = o.rest ++ more }

-- A call that neither succeeded nor failed waits for more bytes.
abbrev pub Waits : Outcome → Type 0
Waits o = (o.returned ≡ false) × (o.parser.has_error ≡ false)

module _ (f : ℕ) (s more : Bytes) (p : HttpParser) (r : HttpRequest) where
  longer :
      (round r.parse_state s p r).0.verdict ≢ incomplete
      → round r.parse_state (s ++ more) p r
        ≡ ((round r.parse_state s p r).0, (round r.parse_state s p r).1 ++ more)
  longer = round-append r.parse_state s more p r

  loop_again-append :
      (round r.parse_state s p r).0.verdict ≡ again
      → parse_loop (suc f) (s ++ more) p r
        ≡ parse_loop f
            ((round r.parse_state s p r).1 ++ more)
            (round r.parse_state s p r).0.parser
            (round r.parse_state s p r).0.request
  loop_again-append e =
      let l = longer (λ n. cc) in
      loop_again f (s ++ more) p r (ap (λ x. x.0.verdict) l ∙ e)
      ∙ ap (λ x. parse_loop f x.1 x.0.parser x.0.request) l

  loop_stop-append :
      (round r.parse_state s p r).0.verdict ≢ again
      → (round r.parse_state s p r).0.verdict ≢ incomplete
      → parse_loop (suc f) (s ++ more) p r
        ≡ some (outcome (round r.parse_state s p r).0 ((round r.parse_state s p r).1 ++ more))
  loop_stop-append n m =
      let l = longer m in
      loop_stop f (s ++ more) p r (λ e. n (sym (ap (λ x. x.0.verdict) l) ∙ e))
      ∙ ap (λ x. some (outcome x.0 x.1)) l

  loop-Waits :
      {o : Outcome}
      → parse_loop (suc f) s p r ≡ some o
      → Waits o
      → ((round r.parse_state s p r).0.verdict ≡ again) ⊎ (o ≡ outcome (stay incomplete p r) s)
  loop-Waits h w = elim (Verdict-split (round r.parse_state s p r).0.verdict) [
    | inl e ↦ inl e
    | inr (inl e) ↦
        let stopped = some_injective (sym h ∙ loop_stop f s p r (λ n. cc)) in
        let done = ap (λ (x : Outcome). x.returned) stopped ∙ ap is_complete e in
        absurd (cc (done, w.0))
    | inr (inr (inl e)) ↦ inr (
        some_injective (
          sym h
          ∙ loop_stop f s p r (λ n. cc)
          ∙ ap (λ x. some (outcome x.0 x.1)) (round_incomplete r.parse_state s p r e)))
    | inr (inr (inr e)) ↦
        let stopped = some_injective (sym h ∙ loop_stop f s p r (λ n. cc)) in
        let flag =
          ap (λ (x : Outcome). x.parser.has_error) stopped ∙ round_broken r.parse_state s p r e in
        absurd (cc (flag, w.1))
  ]

-- A loop that waited goes on, with more bytes, as from the place where it stopped.
pub loop_resume :
    (f g : ℕ) (s more : Bytes) (p : HttpParser) (r : HttpRequest) {o q : Outcome}
    → parse_loop f s p r ≡ some o
    → Waits o
    → parse_loop g (o.rest ++ more) o.parser o.request ≡ some q
    → parse_request (s ++ more) p r ≡ some q
unfolding parse_request
loop_resume zero g s more p r h w k = absurd (unfold parse_loop in cc)
loop_resume (suc f) g s more p r {q} h w k = elim (loop-Waits f s more p r h w) [
  | inl e ↦ request_loop (suc (suc (length (s' ++ more)))) (s ++ more) p r (
      loop_again-append (suc (length (s' ++ more))) s more p r e
      ∙ loop_resume f g s' more g₁.parser g₁.request (sym (loop_again f s p r e) ∙ h) w k)
  | inr e ↦
      request_loop g (s ++ more) p r
        (subst (λ x. parse_loop g (x.rest ++ more) x.parser x.request ≡ some q) e k)
]
  where
    g₁ : Progress
    g₁ = (round r.parse_state s p r).0

    s' : Bytes
    s' = (round r.parse_state s p r).1

-- A call that waits for more bytes loses nothing: called again with the parser, the request and the
-- bytes that it left, and any bytes that came since, the parser does what it does on all the bytes
-- at once.
pub parse_request_resumes :
    (s more : Bytes) (p : HttpParser) (r : HttpRequest) (o : Outcome)
    → parse_request s p r ≡ some o
    → Waits o
    → parse_request (s ++ more) p r ≡ parse_request (o.rest ++ more) o.parser o.request
unfolding parse_request
parse_request_resumes s more p r o h w =
    let (q, k) =
      loop_total (suc (length (o.rest ++ more))) (o.rest ++ more) o.parser o.request
        (omega arith) in
    loop_resume (suc (length s)) (suc (length (o.rest ++ more))) s more p r h w k ∙ sym k

-- What was decided.
abbrev pub Decided : Outcome → Type 0
Decided o = (o.returned ≡ true) ⊎ (o.parser.has_error ≡ true)

loop-Decided :
    (f : ℕ) (s more : Bytes) (p : HttpParser) (r : HttpRequest) {o : Outcome}
    → p.has_error ≡ false
    → parse_loop f s p r ≡ some o
    → Decided o
    → parse_loop f (s ++ more) p r ≡ some (record o { rest = o.rest ++ more })
loop-Decided zero s more p r c h d = absurd (unfold parse_loop in cc)
loop-Decided (suc f) s more p r {o} c h d = elim (Verdict-split g.verdict) [
  | inl e ↦
      loop_again-append f s more p r e
      ∙ loop-Decided f s' more g.parser g.request (round_flag r.parse_state s p r (λ n. cc) ∙ c)
          (sym (loop_again f s p r e) ∙ h) d
  | inr (inl e) ↦ settled (λ n. cc) (λ n. cc)
  | inr (inr (inl e)) ↦
      let same =
        stopped (λ n. cc) ∙ ap (λ x. outcome x.0 x.1) (round_incomplete r.parse_state s p r e) in
      absurd (elim d [ inl yes_ ↦ cc (ap (λ (x : Outcome). x.returned) same) | inr yes_ ↦ cc ])
  | inr (inr (inr e)) ↦ settled (λ n. cc) (λ n. cc)
]
  where
    g : Progress
    g = (round r.parse_state s p r).0

    s' : Bytes
    s' = (round r.parse_state s p r).1

    stopped : g.verdict ≢ again → o ≡ outcome g s'
    stopped n = some_injective (sym h ∙ loop_stop f s p r n)

    settled :
        g.verdict ≢ again
        → g.verdict ≢ incomplete
        → parse_loop (suc f) (s ++ more) p r ≡ some (record o { rest = o.rest ++ more })
    settled n m =
        loop_stop-append f s more p r n m
        ∙ ap (λ (x : Outcome). some (record x { rest = x.rest ++ more })) (sym (stopped n))

-- A call that succeeded or failed did not look at what comes later: with more bytes behind, it gives
-- the same, and leaves those bytes too.
pub parse_request-Decided :
    (s more : Bytes) (p : HttpParser) (r : HttpRequest) (o : Outcome)
    → p.has_error ≡ false
    → parse_request s p r ≡ some o
    → Decided o
    → parse_request (s ++ more) p r ≡ some (record o { rest = o.rest ++ more })
unfolding parse_request
parse_request-Decided s more p r o c h d =
    request_loop (suc (length s)) (s ++ more) p r (loop-Decided (suc (length s)) s more p r c h d)
