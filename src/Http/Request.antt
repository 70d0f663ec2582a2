-- ===== src/Http/Request.antt =====
-- include/tzzero/http/http_request.h and src/http/http_request.cpp: one request, with the state of
-- its parse. A string is the list of its bytes.
mod Methods
use tzzero_http.Prelude.{
  ℕ, Bool, true, false, not, if◌then◌else◌, Option, none, some, List, [], ◌∷◌, ◌++◌, Bytes, codes,
  ◌=?◌,
}
use tzzero_http.Http.Headers
use tzzero_http.Http.Headers.{Headers}
use tzzero_http.Http.Numbers.{lower, stoull}
pub use Methods.{
  HttpMethod, invalid, get, post, put, delete, head, options, patch, connect, trace, HttpVersion,
  unknown, http_1_0, http_1_1, http_2_0,
}
unfoldable pub use Methods.{method_string, version_string}

pub data ParseState : Type 0 where
  parse_request_line parse_headers parse_body parse_complete parse_error : ParseState

pub record HttpRequest : Type 0 where
  pub method : HttpMethod
  pub path : Bytes
  pub query : Bytes
  pub version : HttpVersion
  pub headers : Headers
  pub body : Bytes
  pub parse_state : ParseState
  pub stream_id : ℕ

-- The default member initialisers.
abbrev pub fresh : HttpRequest
fresh = record {
  method = invalid;
  path = [];
  query = [];
  version = unknown;
  headers = [];
  body = [];
  parse_state = parse_request_line;
  stream_id = 0;
}

abbrev pub get_method_string : HttpRequest → Bytes
get_method_string r = method_string r.method

abbrev pub get_version_string : HttpRequest → Bytes
get_version_string r = version_string r.version

unfoldable pub set_method : HttpRequest → HttpMethod → HttpRequest
set_method r x = record r { method = x }

unfoldable pub set_path : HttpRequest → Bytes → HttpRequest
set_path r x = record r { path = x }

unfoldable pub set_query : HttpRequest → Bytes → HttpRequest
set_query r x = record r { query = x }

unfoldable pub set_version : HttpRequest → HttpVersion → HttpRequest
set_version r x = record r { version = x }

unfoldable pub set_body : HttpRequest → Bytes → HttpRequest
set_body r x = record r { body = x }

unfoldable pub set_parse_state : HttpRequest → ParseState → HttpRequest
set_parse_state r x = record r { parse_state = x }

unfoldable pub set_stream_id : HttpRequest → ℕ → HttpRequest
set_stream_id r x = record r { stream_id = x }

unfoldable pub add_header : HttpRequest → Bytes → Bytes → HttpRequest
add_header r field value = record r { headers = Headers.add_header r.headers field value }

unfoldable pub set_header : HttpRequest → Bytes → Bytes → HttpRequest
set_header r field value = record r { headers = Headers.set_header r.headers field value }

unfoldable pub get_header : HttpRequest → Bytes → Bytes
get_header r field = Headers.get_header r.headers field

unfoldable pub has_header : HttpRequest → Bytes → Bool
has_header r field = Headers.has_header r.headers field

unfoldable pub remove_header : HttpRequest → Bytes → HttpRequest
remove_header r field = record r { headers = Headers.remove_header r.headers field }

-- The `catch` turns both exceptions of `std::stoull` into 0.
abbrev or_zero : Option ℕ → ℕ
or_zero none = 0
or_zero (some n) = n

unfoldable pub get_content_length : HttpRequest → ℕ
unfolding get_header
get_content_length r =
    let content_length = get_header r (codes "content-length") in
    if content_length =? [] then 0 else or_zero (stoull content_length)

-- The answer for a connection header in lower case.
unfoldable pub keeps_alive : HttpVersion → Bytes → Bool
keeps_alive http_1_1 connection = not (connection =? codes "close")
keeps_alive _ connection = connection =? codes "keep-alive"

unfoldable pub keep_alive : HttpRequest → Bool
unfolding keeps_alive get_header
keep_alive r = keeps_alive r.version (lower (get_header r (codes "connection")))

unfoldable pub reset : HttpRequest → HttpRequest
reset r = record r {
  method = invalid;
  path = [];
  query = [];
  version = unknown;
  headers = [];
  body = [];
  parse_state = parse_request_line;
  stream_id = 0;
}

-- One line for each entry of the map, in the order in which it is walked.
unfoldable pub header_lines : Headers → Bytes
header_lines [] = []
header_lines ((field, value) ∷ h) =
    field ++ (codes ": " ++ (value ++ (codes "\r\n" ++ header_lines h)))

-- The `?` and the query, unless it is empty.
unfoldable pub query_part : Bytes → Bytes
query_part [] = []
query_part (c ∷ q) = b'?' ∷ c ∷ q

unfoldable pub to_string : HttpRequest → Bytes
unfolding header_lines query_part
to_string r =
    get_method_string r
    ++ (b' ' ∷ r.path
        ++ (query_part r.query
            ++ (b' ' ∷ get_version_string r
                ++ (codes "\r\n" ++ (header_lines r.headers ++ (codes "\r\n" ++ r.body))))))
