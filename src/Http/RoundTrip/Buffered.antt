-- ===== src/Http/RoundTrip/Buffered.antt =====
-- The round trip over the receive buffer, as the server calls the parser.
use tzzero_http.Prelude.{◌≡◌, sym, ap, ◌∙◌, true, some, ◌++◌, Bytes}
use tzzero_http.Buffer
use tzzero_http.Buffer.{Buffer}
use tzzero_http.Buffer.Bounds.{IsValid}
use tzzero_http.Http.Parser
use tzzero_http.Http.Parser.{Outcome, parse_request}
use tzzero_http.Http.Parser.Refine.{parse_request_refines}
use tzzero_http.Http.Parser.Stream
use tzzero_http.Http.Request
use tzzero_http.Http.Request.{HttpRequest, parse_complete, to_string}
use tzzero_http.Http.RoundTrip.{IsWellFormed, parse_request-to_string}

-- A buffer in order whose unread bytes are a well-formed request, printed, and any bytes behind it:
-- a new parser returns true with the request parsed back as complete (the stream number excepted,
-- which is not printed), and the bytes behind it are what is unread.
pub parse_request_prints :
    (b : Buffer) (r : HttpRequest) (rest : Bytes)
    → IsValid b
    → IsWellFormed r
    → Buffer.to_string b ≡ to_string r ++ rest
    → (o : Outcome) × (parse_request b Parser.fresh Request.fresh ≡ some o)
      × (o.returned ≡ true)
      × (o.request ≡ record r { stream_id = 0; parse_state = parse_complete })
      × (Buffer.to_string o.rest ≡ rest)
      × IsValid o.rest
parse_request_prints b r rest v w e =
    let (o, run, valid, same) = parse_request_refines b Parser.fresh Request.fresh v in
    let seen =
      sym same
      ∙ ap (λ s. Stream.parse_request s Parser.fresh Request.fresh) e
      ∙ parse_request-to_string r rest w in
    (
      o,
      run,
      ap Stream.Outcome.returned (some_injective seen),
      ap Stream.Outcome.request (some_injective seen),
      ap Stream.Outcome.rest (some_injective seen),
      valid,
    )
  where
    some_injective : {x y : Stream.Outcome} → some x ≡ some y → x ≡ y
    some_injective q = cc
