-- ===== src/Http/Parser/Stream.antt =====
-- The parser as a function of the unread bytes, with no buffer: what `parse_request` of
-- src/http/http_parser.cpp means. `Refine` proves that the code does this.
use tzzero_http.Prelude.{
  ℕ, zero, suc, ◌+◌, Bool, ltb, if◌then◌else◌, Option, none, some, Bytes, length, take, drop,
}
use tzzero_http.Buffer.{search_crlf}
use tzzero_http.Http.Request.{
  HttpRequest, ParseState, parse_request_line, parse_headers, parse_body, parse_complete,
  parse_error,
}
use tzzero_http.Http.Parser.{
  HttpParser, Progress, on_request_line, on_headers_line, on_body, stay, fail, again, incomplete,
  complete, is_complete,
}

unfoldable pub line_round :
    (Bytes → HttpParser → HttpRequest → Progress)
    → Bytes
    → HttpParser
    → HttpRequest
    → Progress × Bytes
line_round handle s p r = elim (search_crlf s) [
  | none ↦ (stay incomplete p r, s)
  | some n ↦ (handle (take n s) p r, drop (n + 2) s)
]

unfoldable pub body_round : Bytes → HttpParser → HttpRequest → Progress × Bytes
body_round s p r =
    if ltb (length s) p.content_length
    then (stay incomplete p r, s)
    else (on_body (take p.content_length s) p r, drop p.content_length s)

unfoldable pub round : ParseState → Bytes → HttpParser → HttpRequest → Progress × Bytes
unfolding line_round body_round
round parse_request_line s p r = line_round on_request_line s p r
round parse_headers s p r = line_round on_headers_line s p r
round parse_body s p r = body_round s p r
round parse_complete s p r = (stay complete p r, s)
round parse_error s p r = (fail p r, s)

pub record Outcome : Type 0 where
  pub returned : Bool
  pub parser : HttpParser
  pub request : HttpRequest
  pub rest : Bytes

abbrev pub outcome : Progress → Bytes → Outcome
outcome g s = record {
  returned = is_complete g.verdict;
  parser = g.parser;
  request = g.request;
  rest = s;
}

unfoldable pub parse_loop : ℕ → Bytes → HttpParser → HttpRequest → Option Outcome
parse_loop zero s p r = none
parse_loop (suc fuel) s p r =
    let (g, s') = round r.parse_state s p r in
    elim g.verdict [ again ↦ parse_loop fuel s' g.parser g.request | v ↦ some (outcome g s') ]

unfoldable pub parse_request : Bytes → HttpParser → HttpRequest → Option Outcome
parse_request s p r = parse_loop (suc (length s)) s p r
