-- ===== src/Http/Parser.antt =====
-- include/tzzero/http/http_parser.h and src/http/http_parser.cpp: the request parser, which keeps
-- its place in the request and takes complete lines from the buffer. The unused callback of the
-- class is left out.
pub mod Lines
pub mod Stream
pub mod Rounds
pub mod Refine
pub mod Chunks
mod Tests
use tzzero_http.Prelude.{
  ℕ, zero, suc, ◌+◌, Bool, true, false, ltb, if◌then◌else◌, Option, none, some, [], Bytes, ◌=?◌,
}
use tzzero_http.Buffer.{
  Buffer, find_crlf, peek_string, retrieve, retrieve_as_string, readable_bytes,
}
use tzzero_http.Http.Request.{
  HttpRequest, ParseState, parse_request_line, parse_headers, parse_body, parse_complete,
  parse_error, get_content_length,
}
use Lines.{request_line, header_line}

pub record HttpParser : Type 0 where
  pub has_error : Bool
  pub content_length : ℕ
  pub expect_body : Bool

-- The constructor, and what `reset` leaves.
abbrev pub fresh : HttpParser
fresh = record { has_error = false; content_length = 0; expect_body = false }

unfoldable pub reset : HttpParser → HttpParser
reset p = record p { has_error = false; content_length = 0; expect_body = false }

-- What a round of the loop decides: go round again, or return.
pub data Verdict : Type 0 where
  again complete incomplete broken : Verdict

pub record Progress : Type 0 where
  pub verdict : Verdict
  pub parser : HttpParser
  pub request : HttpRequest

abbrev pub fail : HttpParser → HttpRequest → Progress
fail p r = record { verdict = broken; parser = record p { has_error = true }; request = r }

-- The branch of the request line, behind `retrieve`.
unfoldable pub on_request_line : Bytes → HttpParser → HttpRequest → Progress
on_request_line line p r =
    let (good, r') = request_line line r in
    if good
    then record { verdict = again; parser = p; request = record r' { parse_state = parse_headers } }
    else fail p r'

-- The empty line behind the headers.
unfoldable pub on_empty_line : HttpParser → HttpRequest → Progress
on_empty_line p r =
    let n = get_content_length r in
    if ltb 0 n
    then record {
      verdict = again;
      parser = record p { content_length = n; expect_body = true };
      request = record r { parse_state = parse_body };
    }
    else record {
      verdict = complete;
      parser = record p { content_length = n };
      request = record r { parse_state = parse_complete };
    }

unfoldable pub on_header_line : Bytes → HttpParser → HttpRequest → Progress
on_header_line line p r =
    let (good, r') = header_line line r in
    if good then record { verdict = again; parser = p; request = r' } else fail p r'

-- The branch of the headers, behind `retrieve`.
unfoldable pub on_headers_line : Bytes → HttpParser → HttpRequest → Progress
unfolding on_empty_line on_header_line
on_headers_line line p r = if line =? [] then on_empty_line p r else on_header_line line p r

unfoldable pub on_body : Bytes → HttpParser → HttpRequest → Progress
on_body body p r = record {
  verdict = complete;
  parser = p;
  request = record r { body = body; parse_state = parse_complete };
}

abbrev pub stay : Verdict → HttpParser → HttpRequest → Progress
stay v p r = record { verdict = v; parser = p; request = r }

-- The line up to the first CR LF, and the buffer behind it.
unfoldable pub line_round :
    (Bytes → HttpParser → HttpRequest → Progress)
    → Buffer
    → HttpParser
    → HttpRequest
    → Progress × Buffer
line_round handle b p r = elim (find_crlf b) [
  | none ↦ (stay incomplete p r, b)
  | some n ↦ (handle (peek_string b n) p r, retrieve b (n + 2))
]

unfoldable pub body_round : Buffer → HttpParser → HttpRequest → Progress × Buffer
unfolding on_body
body_round b p r =
    if ltb (readable_bytes b) p.content_length
    then (stay incomplete p r, b)
    else let (body, b') = retrieve_as_string b p.content_length in (on_body body p r, b')

-- The body of the `while` loop.
unfoldable pub round : ParseState → Buffer → HttpParser → HttpRequest → Progress × Buffer
unfolding line_round body_round on_request_line on_headers_line
round parse_request_line b p r = line_round on_request_line b p r
round parse_headers b p r = line_round on_headers_line b p r
round parse_body b p r = body_round b p r
round parse_complete b p r = (stay complete p r, b)
round parse_error b p r = (fail p r, b)

-- What the call returns and leaves; the verdict is `complete` for `true`.
pub record Outcome : Type 0 where
  pub returned : Bool
  pub parser : HttpParser
  pub request : HttpRequest
  pub rest : Buffer

abbrev is_complete : Verdict → Bool
is_complete complete = true
is_complete _ = false

abbrev outcome : Progress → Buffer → Outcome
outcome g b = record {
  returned = is_complete g.verdict;
  parser = g.parser;
  request = g.request;
  rest = b;
}

-- The loop on fuel; `none` if the fuel runs out.
unfoldable pub parse_loop : ℕ → Buffer → HttpParser → HttpRequest → Option Outcome
unfolding round
parse_loop zero b p r = none
parse_loop (suc fuel) b p r =
    let (g, b') = round r.parse_state b p r in
    elim g.verdict [ again ↦ parse_loop fuel b' g.parser g.request | v ↦ some (outcome g b') ]

-- A round that goes on has taken at least the two bytes of a line end.
unfoldable pub parse_request : Buffer → HttpParser → HttpRequest → Option Outcome
unfolding parse_loop
parse_request b p r = parse_loop (suc (readable_bytes b)) b p r
