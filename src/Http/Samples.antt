-- ===== src/Http/Samples.antt =====
-- A request for the tests: `HttpRequest` of include/tzzero/http/http_request.h.
use tzzero_http.Prelude.{◌=?◌, arith, refl, true, none, [], ◌∷◌, codes}
use tzzero_http.Http.Request.{HttpRequest, get_content_length, post, http_1_1, parse_complete}
use tzzero_http.Http.RoundTrip.{IsWellFormed}
use tzzero_http.Http.Numbers.{is_space, lower, stoull, is_digit, to_lower}
use tzzero_http.Http.Headers.{find, get_header}
use tzzero_http.Http.Parser.Lines.{is_blank, is_blank_or_eol}
use tzzero_http.Http.Server.{Config}

-- A `POST` to `/a` with the query `b=1` and a body of two bytes.
abbrev pub sample_request : HttpRequest
sample_request = record {
  method = post;
  path = codes "/a";
  query = codes "b=1";
  version = http_1_1;
  headers = (codes "host", codes "x") ∷ (codes "content-length", codes "2") ∷ [];
  body = codes "hi";
  parse_state = parse_complete;
  stream_id = 3;
}

pub sample_request-IsWellFormed : IsWellFormed sample_request
unfolding is_space lower get_content_length stoull to_lower is_digit get_header find ◌=?◌ is_blank
    is_blank_or_eol
sample_request-IsWellFormed = record {
  method_known = λ e. cc;
  version_known = λ e. cc;
  path_word = (ground arith);
  path_plain = (ground arith);
  query_plain = (ground arith);
  headers_valid = (ground arith);
  headers_printable = (ground arith);
  body_length = refl;
}

abbrev pub sample_config : Config
sample_config = record { keep_alive_enabled = true; keep_alive_timeout = 5; http_callback = none }
