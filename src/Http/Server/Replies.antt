-- ===== src/Http/Server/Replies.antt =====
-- What the server answers.
use tzzero_http.Prelude.{
  ◌≡◌, sym, ap, ◌∙◌, arith, true, false, [], ◌∷◌, ◌⊎◌, Option, none, some, ◌++◌, Bytes,
}
use tzzero_http.Buffer.{Buffer, to_string}
use tzzero_http.Buffer.Bounds.{IsValid}
use tzzero_http.Http.Headers.{Headers}
use tzzero_http.Http.Parser
use tzzero_http.Http.Parser.{HttpParser, parse_request, reset}
use tzzero_http.Http.Parser.Refine.{parse_request_refines, view}
use tzzero_http.Http.Request
use tzzero_http.Http.Request.{HttpRequest, parse_complete}
use tzzero_http.Http.RoundTrip.{IsWellFormed, parse_request-to_string}
use tzzero_http.Http.Server.{
  Config, Handled, shutdown, on_request, on_message, after_parse, context_parser,
}

some_injective : {a b : Parser.Stream.Outcome} → some a ≡ some b → a ≡ b
some_injective h = cc

module _ (walk : Headers → Headers) (date : Bytes) (config : Config) where
  -- What the calls and the new context are where the parser over the bytes ends like this.
  abbrev pub Follows : Parser.Stream.Outcome → Handled → Type 0
  Follows o h =
      ((o.returned ≡ true)
        × (h.calls ≡ on_request walk date config o.request)
        × (h.context ≡ some (reset o.parser)))
      ⊎ ((o.returned ≡ false)
          × (o.parser.has_error ≡ true)
          × (h.calls ≡ shutdown ∷ [])
          × (h.context ≡ some o.parser))
      ⊎ ((o.returned ≡ false)
          × (o.parser.has_error ≡ false)
          × (h.calls ≡ [])
          × (h.context ≡ some o.parser))

  after_parse-Follows :
      (q : Parser.Outcome)
      → (to_string (after_parse walk date config q).buffer ≡ to_string q.rest)
        × Follows (view q) (after_parse walk date config q)
  unfolding after_parse
  after_parse-Follows q = (ground arith, ground arith)

  -- Whatever bytes are in a buffer whose indices are in order, and with any parser in the context, or
  -- none, `on_message` returns and leaves a buffer whose indices are in order, and it does what the
  -- parser over the bytes, with a new parser where there was none, says: it leaves the bytes that this
  -- parser leaves; if the request is complete, it makes the calls of `on_request` for it and resets the
  -- parser; if there is an error, it shuts the connection down; and else it makes no call, and keeps
  -- the parser.
  pub on_message_refines :
      (context : Option HttpParser) (b : Buffer)
      → IsValid b
      → (h : Handled) × (o : Parser.Stream.Outcome) × (on_message walk date config context b
          ≡ some h)
        × IsValid h.buffer
        × (Parser.Stream.parse_request (to_string b) (context_parser context) Request.fresh
            ≡ some o)
        × (to_string h.buffer ≡ o.rest)
        × Follows o h
  unfolding on_message after_parse
  on_message_refines context b v =
      let (q, run, valid, same) =
        parse_request_refines b (context_parser context) Request.fresh v in
      (
        after_parse walk date config q,
        view q,
        rw (run, on_message),
        ground arith,
        same,
        (after_parse-Follows q).0,
        (after_parse-Follows q).1,
      )

  after_parse_complete :
      (o : Parser.Outcome)
      → o.returned ≡ true
      → after_parse walk date config o ≡ record {
        context = some (reset o.parser);
        buffer = o.rest;
        calls = on_request walk date config o.request;
      }
  unfolding after_parse
  after_parse_complete o e = rw e

  -- A connection that has no parser yet has a whole well-formed request, and maybe bytes behind it,
  -- in a buffer whose indices are in order: `on_message` returns with the calls of `on_request` for
  -- that request; the bytes behind it stay in the buffer, and the parser is as new.
  pub on_message_answers :
      (req : HttpRequest) (rest : Bytes) (b : Buffer)
      → IsValid b
      → to_string b ≡ Request.to_string req ++ rest
      → IsWellFormed req
      → (h : Handled) × (on_message walk date config none b ≡ some h)
        × (h.calls
            ≡ on_request walk date config
                (record req { parse_state = parse_complete; stream_id = 0 }))
        × (to_string h.buffer ≡ rest)
        × (h.context ≡ some Parser.fresh)
  unfolding on_message reset
  on_message_answers req rest b v e w =
      let (o, run, valid, same) = parse_request_refines b Parser.fresh Request.fresh v in
      let known =
        sym same
        ∙ ap (λ s. Parser.Stream.parse_request s Parser.fresh Request.fresh) e
        ∙ parse_request-to_string req rest w in
      let seen = some_injective known in
      let handled = after_parse_complete o (ap (λ (x : Parser.Stream.Outcome). x.returned) seen) in
      (
        after_parse walk date config o,
        rw (run, on_message),
        ap (λ (x : Handled). x.calls) handled
            ∙ ap (λ (x : Parser.Stream.Outcome). on_request walk date config x.request) seen,
        ap (λ (x : Handled). to_string x.buffer) handled
            ∙ ap (λ (x : Parser.Stream.Outcome). x.rest) seen,
        ap (λ (x : Handled). x.context) handled
            ∙ ap (λ (x : Parser.Stream.Outcome). some (reset x.parser)) seen,
      )
