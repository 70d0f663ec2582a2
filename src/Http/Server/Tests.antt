-- ===== src/Http/Server/Tests.antt =====
-- `HttpServer::on_message` of src/http/http_server.cpp on one request, whole and in two pieces.
use tzzero_http.Prelude.{◌≡◌, ◌∙◌, arith, none, some, ◌++◌, ◌∷◌, [], Bytes, codes, refl}
use tzzero_http.Buffer
use tzzero_http.Buffer.Bounds.{IsValid}
use tzzero_http.Buffer.Samples.{holding, holding-IsValid, to_string-holding}
use tzzero_http.Http.Headers.{Headers}
use tzzero_http.Http.Numbers.{is_space}
use tzzero_http.Http.Parser
use tzzero_http.Http.Request
use tzzero_http.Http.Request.{parse_complete}
use tzzero_http.Http.RoundTrip.{first_line, after_line}
use tzzero_http.Http.RoundTrip.Rounds.{eol}
use tzzero_http.Http.Samples.{sample_request, sample_request-IsWellFormed, sample_config}
use tzzero_http.Http.Server.{Handled, context_parser, on_message, on_request, shutdown}
use tzzero_http.Http.Server.Replies.{on_message_answers, Follows, on_message_refines}
use tzzero_http.Http.Server.Pieces.{StartsWithWord, on_message_pieces}

-- The order in which the headers are walked, and the date.
abbrev walk : Headers → Headers
walk h = h

abbrev date : Bytes
date = codes "Thu, 01 Jan 1970 00:00:00 GMT"

abbrev line : Bytes
line = codes "POST /a?b=1 HTTP/1.1\r\n"

abbrev rest : Bytes
rest = codes "host: x\r\ncontent-length: 2\r\n\r\nhi"

received_lem : line ++ rest ≡ Request.to_string sample_request ++ []
unfolding Request.to_string Request.method_string Request.version_string
received_lem = refl

line_lem : (line ≡ first_line sample_request ++ eol []) × (rest ≡ after_line sample_request [])
unfolding Request.method_string Request.version_string Request.query_part Request.header_lines
line_lem = (refl, refl)

on_message_answers_example :
    (h : Handled) × (on_message walk date sample_config none (holding (line ++ rest)) ≡ some h)
    × (h.calls
        ≡ on_request walk date sample_config
            (record sample_request { parse_state = parse_complete; stream_id = 0 }))
    × (Buffer.to_string h.buffer ≡ [])
    × (h.context ≡ some Parser.fresh)
on_message_answers_example =
    on_message_answers walk date sample_config sample_request [] (holding (line ++ rest))
      (holding-IsValid (line ++ rest) (omega arith))
      (to_string-holding (line ++ rest) (omega arith) ∙ received_lem) sample_request-IsWellFormed

host-IsWord : StartsWithWord sample_request.headers
unfolding is_space
host-IsWord = ground arith

on_message_pieces_example :
    (h1 h2 : Handled) × (on_message walk date sample_config none (holding line) ≡ some h1)
    × (h1.calls ≡ [])
    × (Buffer.to_string h1.buffer ≡ [])
    × (on_message walk date sample_config h1.context (holding rest) ≡ some h2)
    × (h2.calls ≡ shutdown ∷ [])
on_message_pieces_example =
    on_message_pieces walk date sample_config sample_request [] (holding line) (holding rest)
      (holding-IsValid line (omega arith)) (holding-IsValid rest (omega arith))
      sample_request-IsWellFormed host-IsWord (to_string-holding line (omega arith) ∙ line_lem.0)
      (to_string-holding rest (omega arith) ∙ line_lem.1)

on_message_refines_example :
    (h : Handled) × (o : Parser.Stream.Outcome) × (on_message walk date sample_config
        (some Parser.fresh)
        (holding rest)
      ≡ some h)
    × IsValid h.buffer
    × (Parser.Stream.parse_request
          (Buffer.to_string (holding rest))
          (context_parser (some Parser.fresh))
          Request.fresh
        ≡ some o)
    × (Buffer.to_string h.buffer ≡ o.rest)
    × Follows walk date sample_config o h
on_message_refines_example =
    on_message_refines walk date sample_config (some Parser.fresh) (holding rest)
      (holding-IsValid rest (omega arith))
