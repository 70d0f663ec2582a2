-- ===== src/Http/RoundTrip.antt =====
-- `HttpRequest::to_string` of src/http/http_request.cpp against `HttpParser::parse_request` of
-- src/http/http_parser.cpp.
pub mod RequestLine
pub mod HeaderLine
pub mod Rounds
pub mod Buffered
mod Tests
use tzzero_http.Prelude.{
  ℕ, ◌≡◌, ◌≢◌, refl, sym, ap, ◌∙◌, arith, Bool, true, false, ltb, some, [], ◌∷◌, ◌++◌, Bytes, codes,
  All, length, append_assoc,
}
use tzzero_http.Http.Headers
use tzzero_http.Http.Numbers.{is_space}
use tzzero_http.Http.Request.{
  HttpRequest, invalid, unknown, parse_headers, get_content_length, to_string, header_lines,
  method_string, version_string, query_part,
}
use tzzero_http.Http.Request
use tzzero_http.Http.Parser
use tzzero_http.Http.Parser.{on_request_line, again}
use tzzero_http.Http.Parser.Chunks.{request_loop}
use tzzero_http.Http.Parser.Stream
use tzzero_http.Http.Parser.Stream.{round, parse_request}
use RequestLine.{IsWord, Lacks, request_line-print, Lacks-request_line}
use Rounds.{
  Runs, Runs-again, Runs-headers, Runs-body, AllPrintable, reading, headed, finished, counted, eol,
  line_round-eol,
}

-- A request whose parts stand apart when they are printed, and whose content-length header tells
-- the length of its body.
pub record IsWellFormed (r : HttpRequest) : Type 0 where
  pub method_known : r.method ≢ invalid
  pub version_known : r.version ≢ unknown
  pub path_word : IsWord r.path
  pub path_plain : Lacks b'?' r.path
  pub query_plain : All (λ c. is_space c ≡ false) r.query
  pub headers_valid : Headers.IsValid r.headers
  pub headers_printable : AllPrintable r.headers
  pub body_length : get_content_length r ≡ length r.body

-- The request line, and what is printed behind it.
abbrev pub first_line : HttpRequest → Bytes
first_line r =
    method_string r.method
    ++ b' ' ∷ ((r.path ++ query_part r.query) ++ b' ' ∷ version_string r.version)

abbrev pub after_line : HttpRequest → Bytes → Bytes
after_line r rest = header_lines r.headers ++ eol (r.body ++ rest)

-- The printed request, cut at its first line end.
pub print_lines :
    (r : HttpRequest) (rest : Bytes) → to_string r ++ rest ≡ first_line r ++ eol (after_line r rest)
unfolding to_string
print_lines r rest = simp append_assoc

-- What the request line tells of a request.
abbrev pub started : HttpRequest → HttpRequest
started r = record Request.fresh {
  method = r.method;
  path = r.path;
  query = r.query;
  version = r.version;
}

pub on_request_line-print :
    (r : HttpRequest)
    → IsWellFormed r
    → on_request_line (first_line r) Parser.fresh Request.fresh
      ≡ record { verdict = again; parser = Parser.fresh; request = reading (started r) [] }
unfolding on_request_line
on_request_line-print r w = rw (
    request_line-print r.method r.path r.query r.version Request.fresh w.method_known
      w.version_known w.path_word w.path_plain w.query_plain refl)

-- The request line is one round of the loop.
pub first_round :
    (r : HttpRequest) (tail : Bytes)
    → IsWellFormed r
    → round Request.parse_request_line (first_line r ++ eol tail) Parser.fresh Request.fresh
      ≡ (record { verdict = again; parser = Parser.fresh; request = reading (started r) [] }, tail)
unfolding round
first_round r tail w =
    line_round-eol on_request_line (first_line r) tail Parser.fresh Request.fresh
      (Lacks-request_line r.method r.path r.query r.version w.path_word w.query_plain)
    ∙ ap (λ x. (x, tail)) (on_request_line-print r w)

-- A well-formed request, printed and followed by any bytes, is parsed as complete: the parser gives
-- back all of its parts (the stream number excepted, which is not printed) and leaves those bytes.
pub parse_request-to_string :
    (r : HttpRequest) (rest : Bytes)
    → IsWellFormed r
    → parse_request (to_string r ++ rest) Parser.fresh Request.fresh
      ≡ some (record {
        returned = true;
        parser = counted Parser.fresh (length r.body);
        request = finished (record r { stream_id = 0 }) r.body;
        rest = rest;
      })
unfolding get_content_length
parse_request-to_string r rest w = rw (print_lines r rest) (request_loop run.0 _ _ _ run.1)
  where
    tail : Bytes
    tail = after_line r rest

    run : Runs (first_line r ++ eol tail) Parser.fresh Request.fresh (record {
      returned = true;
      parser = counted Parser.fresh (length r.body);
      request = finished (record r { stream_id = 0 }) r.body;
      rest = rest;
    })
    run =
        Runs-again (first_line r ++ eol tail) tail Parser.fresh Request.fresh
          (record { verdict = again; parser = Parser.fresh; request = reading (started r) [] }) _
          (first_round r tail w) refl
          (Runs-headers r.headers [] (eol (r.body ++ rest)) Parser.fresh (started r) _
            w.headers_printable w.headers_valid
            (Runs-body r.body rest Parser.fresh (record (started r) { headers = r.headers })
              w.body_length))
