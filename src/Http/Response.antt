-- ===== src/Http/Response.antt =====
-- include/tzzero/http/http_response.h and src/http/http_response.cpp: a response under
-- construction, and its text.
mod Status
pub mod Length
pub mod Text
mod Tests
use tzzero_http.Prelude.{
  ℕ, Bool, true, false, not, ◌&&◌, if◌then◌else◌, List, [], ◌∷◌, ◌++◌, Bytes, codes, ◌=?◌, length,
}
use tzzero_http.Http.Headers
use tzzero_http.Http.Headers.{Headers}
use tzzero_http.Http.Numbers.{decimal}
use tzzero_http.Http.Request.{header_lines}
pub use Status.{
  HttpStatusCode, continue_, switching_protocols, ok, created, accepted, no_content,
  partial_content, moved_permanently, found, not_modified, temporary_redirect, bad_request,
  unauthorized, forbidden, not_found, method_not_allowed, request_timeout, length_required,
  payload_too_large, internal_server_error, not_implemented, bad_gateway, service_unavailable,
  gateway_timeout, http_version_not_supported,
}
unfoldable pub use Status.{code_number, status_message}

pub record HttpResponse : Type 0 where
  pub status_code : HttpStatusCode
  pub close_connection : Bool
  pub headers : Headers
  pub body : Bytes
  pub stream_id : ℕ

-- The default member initialisers.
abbrev pub fresh : HttpResponse
fresh = record {
  status_code = ok;
  close_connection = false;
  headers = [];
  body = [];
  stream_id = 0;
}

unfoldable pub set_status_code : HttpResponse → HttpStatusCode → HttpResponse
set_status_code r code = record r { status_code = code }

unfoldable pub set_close_connection : HttpResponse → Bool → HttpResponse
set_close_connection r close = record r { close_connection = close }

unfoldable pub add_header : HttpResponse → Bytes → Bytes → HttpResponse
add_header r field value = record r { headers = Headers.add_header r.headers field value }

unfoldable pub set_header : HttpResponse → Bytes → Bytes → HttpResponse
set_header r field value = record r { headers = Headers.set_header r.headers field value }

unfoldable pub get_header : HttpResponse → Bytes → Bytes
get_header r field = Headers.get_header r.headers field

unfoldable pub has_header : HttpResponse → Bytes → Bool
has_header r field = Headers.has_header r.headers field

unfoldable pub remove_header : HttpResponse → Bytes → HttpResponse
remove_header r field = record r { headers = Headers.remove_header r.headers field }

-- The header is set only where there is none.
unfoldable pub ensure_content_length : HttpResponse → HttpResponse
unfolding set_header has_header
ensure_content_length r =
    if not (r.body =? []) && not (has_header r (codes "content-length"))
    then set_header r (codes "content-length") (decimal (length r.body))
    else r

unfoldable pub set_body : HttpResponse → Bytes → HttpResponse
set_body r body = ensure_content_length (record r { body = body })

unfoldable pub append_body : HttpResponse → Bytes → HttpResponse
append_body r more = ensure_content_length (record r { body = r.body ++ more })

unfoldable pub clear_body : HttpResponse → HttpResponse
clear_body r = record r { body = [] }

unfoldable pub set_content_type : HttpResponse → Bytes → HttpResponse
unfolding set_header
set_content_type r content_type = set_header r (codes "content-type") content_type

unfoldable pub set_html_content_type : HttpResponse → HttpResponse
unfolding set_content_type
set_html_content_type r = set_content_type r (codes "text/html; charset=utf-8")

unfoldable pub set_json_content_type : HttpResponse → HttpResponse
unfolding set_content_type
set_json_content_type r = set_content_type r (codes "application/json; charset=utf-8")

unfoldable pub set_text_content_type : HttpResponse → HttpResponse
unfolding set_content_type
set_text_content_type r = set_content_type r (codes "text/plain; charset=utf-8")

unfoldable pub set_stream_id : HttpResponse → ℕ → HttpResponse
set_stream_id r x = record r { stream_id = x }

unfoldable pub redirect : HttpResponse → Bytes → HttpStatusCode → HttpResponse
unfolding set_header set_html_content_type set_status_code
redirect r url code =
    let r1 = set_header (set_status_code r code) (codes "location") url in
    set_body (set_html_content_type r1) (
      codes "<html><body><h1>Redirecting...</h1><p>Please follow <a href=\""
      ++ (url ++ codes "\">this link</a>.</p></body></html>"))

unfoldable pub reset : HttpResponse → HttpResponse
reset r = record r {
  status_code = ok;
  close_connection = false;
  headers = [];
  body = [];
  stream_id = 0;
}

abbrev connection_line : Bool → Bytes
connection_line close =
    if close then codes "connection: close\r\n" else codes "connection: keep-alive\r\n"

unfoldable pub status_line : HttpStatusCode → Bytes
status_line code =
    codes "HTTP/1.1 "
    ++ (decimal (code_number code) ++ (codes " " ++ (status_message code ++ codes "\r\n")))

-- `walk` lists the headers in the order in which the map is walked, and `date` is the text of the
-- clock.
module _ (walk : Headers → Headers) (date : Bytes) where
  unfoldable pub server_line : HttpResponse → Bytes
  server_line r = if has_header r (codes "server") then [] else codes "server: TZZeroHTTP/1.0\r\n"

  unfoldable pub date_line : HttpResponse → Bytes
  date_line r = if has_header r (codes "date") then [] else codes "date: " ++ (date ++ codes "\r\n")

  unfoldable pub append_to_buffer : HttpResponse → Bytes → Bytes
  unfolding status_line server_line date_line
  append_to_buffer r buffer =
      let b1 = buffer ++ status_line r.status_code in
      let b2 = b1 ++ header_lines (walk r.headers) in
      let b3 = b2 ++ connection_line r.close_connection in
      let b4 = b3 ++ server_line r in
      let b5 = b4 ++ date_line r in let b6 = b5 ++ codes "\r\n" in b6 ++ r.body

  unfoldable pub to_buffer : HttpResponse → Bytes
  unfolding append_to_buffer
  to_buffer r = append_to_buffer r []
