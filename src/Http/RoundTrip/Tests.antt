-- ===== src/Http/RoundTrip/Tests.antt =====
-- `HttpRequest::to_string` and `HttpParser::parse_request` (src/http) on one request.
use tzzero_http.Prelude.{◌≡◌, ◌∙◌, arith, true, some, ◌++◌, Bytes, codes, refl}
use tzzero_http.Buffer
use tzzero_http.Buffer.Bounds.{IsValid}
use tzzero_http.Buffer.Samples.{holding, holding-IsValid, to_string-holding}
use tzzero_http.Http.Parser
use tzzero_http.Http.Parser.{Outcome, parse_request}
use tzzero_http.Http.Request
use tzzero_http.Http.Request.{HttpRequest, parse_complete, to_string}
use tzzero_http.Http.RoundTrip.Buffered.{parse_request_prints}
use tzzero_http.Http.Samples.{sample_request, sample_request-IsWellFormed}

abbrev next_bytes : Bytes
next_bytes = codes "GET"

abbrev received : Bytes
received = codes "POST /a?b=1 HTTP/1.1\r\nhost: x\r\ncontent-length: 2\r\n\r\nhiGET"

received_lem : received ≡ to_string sample_request ++ next_bytes
unfolding to_string Request.method_string Request.version_string
received_lem = refl

parse_request_prints_example :
    (o : Outcome) × (parse_request (holding received) Parser.fresh Request.fresh ≡ some o)
    × (o.returned ≡ true)
    × (o.request ≡ record sample_request { stream_id = 0; parse_state = parse_complete })
    × (Buffer.to_string o.rest ≡ next_bytes)
    × IsValid o.rest
parse_request_prints_example =
    parse_request_prints (holding received) sample_request next_bytes
      (holding-IsValid received (omega arith)) sample_request-IsWellFormed
      (to_string-holding received (omega arith) ∙ received_lem)
