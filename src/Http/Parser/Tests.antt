-- ===== src/Http/Parser/Tests.antt =====
-- `HttpParser::parse_request` of src/http/http_parser.cpp on requests in pieces.
use tzzero_http.Prelude.{
  ◌≡◌, ◌++◌, refl, arith, true, Option, none, some, inl, Bytes, codes, add_size, sub_size, ◌=?◌,
}
use tzzero_http.Buffer
use tzzero_http.Buffer.{Buffer, append, make}
use tzzero_http.Buffer.Bounds.{IsValid}
use tzzero_http.Buffer.Samples.{holding, holding-IsValid}
use tzzero_http.Http.Parser
use tzzero_http.Http.Parser.{Outcome, parse_request}
use tzzero_http.Http.Headers.{get_header, find}
use tzzero_http.Http.Numbers.{is_space}
use tzzero_http.Http.Parser.Lines
use tzzero_http.Http.Parser.Chunks.{Waits, Decided}
use tzzero_http.Http.Parser.Refine.{
  parse_request_pieces, parse_request_refines, parse_request_final, view,
}
use tzzero_http.Http.Parser.Stream
use tzzero_http.Http.Request
use tzzero_http.Http.Request.{HttpRequest}

abbrev request_of : Option Outcome → Outcome
request_of none = record {
  returned = true;
  parser = record Parser.fresh { has_error = true };
  request = Request.fresh;
  rest = make 0;
}
request_of (some o) = o

abbrev start : Bytes
start = codes "GET / HTTP/1.1\r\n\r"

abbrev behind : Bytes
behind = codes "\n"

abbrev after_start : Outcome
after_start = request_of (parse_request (holding start) Parser.fresh Request.fresh)

abbrev whole : Outcome
whole = request_of (parse_request (append (holding start) behind) Parser.fresh Request.fresh)

abbrev last : Outcome
last =
    request_of
      (parse_request (append after_start.rest behind) after_start.parser after_start.request)

abbrev full : Bytes
full = codes "GET / HTTP/1.1\r\n\r\n"

abbrev decided : Outcome
decided = request_of (parse_request (holding full) Parser.fresh Request.fresh)

start-runs :
    (parse_request (holding start) Parser.fresh Request.fresh ≡ some after_start)
    × Waits (view after_start)
    × (after_start.rest.write_index ≡ 25)
unfolding parse_request make append Buffer.find_crlf Buffer.search_crlf Buffer.ensure_writable_bytes
    Buffer.writable_bytes sub_size add_size Buffer.make_space Buffer.prependable_bytes
    Lines.request_line ◌=?◌ Buffer.peek_string is_space Buffer.readable_bytes Buffer.retrieve
    Request.get_content_length get_header find
start-runs = (refl, (refl, refl), refl)

whole-runs :
    (parse_request (append (holding start) behind) Parser.fresh Request.fresh ≡ some whole)
    × (whole.returned ≡ true)
unfolding parse_request make append Buffer.find_crlf Buffer.search_crlf Buffer.ensure_writable_bytes
    Buffer.writable_bytes sub_size add_size Buffer.make_space Buffer.prependable_bytes
    Lines.request_line ◌=?◌ Buffer.peek_string is_space Buffer.readable_bytes Buffer.retrieve
    Request.get_content_length get_header find
whole-runs = (refl, refl)

last-runs :
    parse_request (append after_start.rest behind) after_start.parser after_start.request
    ≡ some last
unfolding parse_request make append Buffer.find_crlf Buffer.search_crlf Buffer.ensure_writable_bytes
    Buffer.writable_bytes sub_size add_size Buffer.make_space Buffer.prependable_bytes
    Lines.request_line ◌=?◌ Buffer.peek_string is_space Buffer.readable_bytes Buffer.retrieve
    Request.get_content_length get_header find
last-runs = refl

holding-size : (holding start).write_index ≡ 25
unfolding parse_request make append Buffer.find_crlf Buffer.search_crlf Buffer.ensure_writable_bytes
    Buffer.writable_bytes sub_size add_size Buffer.make_space Buffer.prependable_bytes
    Lines.request_line ◌=?◌ Buffer.peek_string is_space Buffer.readable_bytes Buffer.retrieve
    Request.get_content_length get_header find
holding-size = refl

parse_request_pieces_example : view whole ≡ view last
parse_request_pieces_example =
    parse_request_pieces (holding start) behind Parser.fresh Request.fresh after_start whole last
      (holding-IsValid start (omega arith)) (omega (arith, holding-size)) start-runs.0 start-runs.1
      (omega (arith, start-runs.2)) whole-runs.0 last-runs

parse_request_refines_example :
    (o : Outcome) × (parse_request (holding start) Parser.fresh Request.fresh ≡ some o)
    × IsValid o.rest
    × (Stream.parse_request (Buffer.to_string (holding start)) Parser.fresh Request.fresh
        ≡ some (view o))
parse_request_refines_example =
    parse_request_refines (holding start) Parser.fresh Request.fresh
      (holding-IsValid start (omega arith))

full-runs :
    (parse_request (holding full) Parser.fresh Request.fresh ≡ some decided)
    × Decided (view decided)
    × ((holding full).write_index ≡ 26)
unfolding parse_request make append Buffer.find_crlf Buffer.search_crlf Buffer.ensure_writable_bytes
    Buffer.writable_bytes sub_size add_size Buffer.make_space Buffer.prependable_bytes
    Lines.request_line ◌=?◌ Buffer.peek_string is_space Buffer.readable_bytes Buffer.retrieve
    Request.get_content_length get_header find
full-runs = (refl, inl refl, refl)

parse_request_final_example :
    (after : Outcome) × (parse_request (append (holding full) start) Parser.fresh Request.fresh
      ≡ some after)
    × (view after ≡ record (view decided) { rest = Buffer.to_string decided.rest ++ start })
parse_request_final_example =
    parse_request_final (holding full) start Parser.fresh Request.fresh decided
      (holding-IsValid full (omega arith)) (omega (arith, full-runs.2)) refl full-runs.0 full-runs.1
