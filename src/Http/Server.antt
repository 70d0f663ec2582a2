-- ===== src/Http/Server.antt =====
-- include/tzzero/http/http_server.h and src/http/http_server.cpp: the callbacks that the server
-- hangs on each connection. What they do to the connection is a list of calls; its context is the
-- parser, or `none` where the context holds none. A negative keep-alive timeout is 0 here.
pub mod Replies
pub mod Pieces
pub mod Lifecycle
pub mod Exchange
mod Tests
use tzzero_http.Prelude.{
  ℕ, Bool, true, false, not, ◌||◌, ltb, if◌then◌else◌, Option, none, some, List, [], ◌∷◌, ◌++◌,
  Bytes, codes,
}
use tzzero_http.Buffer.{Buffer}
use tzzero_http.Http.Headers.{Headers}
use tzzero_http.Http.Numbers.{decimal}
use tzzero_http.Http.Parser
use tzzero_http.Http.Parser.{HttpParser, parse_request}
use tzzero_http.Http.Request
use tzzero_http.Http.Request.{HttpRequest, keep_alive}
use tzzero_http.Http.Response
use tzzero_http.Http.Response.{
  HttpResponse, not_found, set_header, set_close_connection, set_status_code, set_html_content_type,
  set_body, append_to_buffer,
}

pub record Config : Type 0 where
  pub keep_alive_enabled : Bool
  pub keep_alive_timeout : ℕ
  pub http_callback : Option (HttpRequest → HttpResponse → HttpResponse)

-- The calls on the connection.
pub data Call : Type 0 where
  set_context : HttpParser → Call
  set_tcp_no_delay set_keep_alive : Bool → Call
  send : Bytes → Call
  shutdown : Call

unfoldable pub on_connection : Bool → List Call
on_connection connected =
    if connected
    then set_context Parser.fresh ∷ set_tcp_no_delay true ∷ set_keep_alive true ∷ []
    else []

-- The response with its default headers.
unfoldable pub prepare : Config → HttpRequest → HttpResponse
prepare config req =
    let r0 = set_header Response.fresh (codes "Server") (codes "TZZeroHTTP/1.0") in
    let close = not (keep_alive req) || not config.keep_alive_enabled in
    let r1 = set_close_connection r0 close in
    if close
    then set_header r1 (codes "Connection") (codes "close")
    else let r2 = set_header r1 (codes "Connection") (codes "keep-alive") in
      if ltb 0 config.keep_alive_timeout
      then set_header r2 (codes "Keep-Alive")
          (codes "timeout=" ++ decimal config.keep_alive_timeout)
      else r2

unfoldable pub not_found_response : HttpResponse → HttpResponse
not_found_response r =
    set_body (set_html_content_type (set_status_code r not_found))
      (codes "<html><body><h1>404 Not Found</h1></body></html>")

unfoldable pub respond :
    Option (HttpRequest → HttpResponse → HttpResponse) → HttpRequest → HttpResponse → HttpResponse
unfolding not_found_response
respond none req r = not_found_response r
respond (some callback) req r = callback req r

-- What `on_message` leaves: the parser in the context, the buffer, and the calls.
pub record Handled : Type 0 where
  pub context : Option HttpParser
  pub buffer : Buffer
  pub calls : List Call

-- A context that holds no parser gets a new one.
abbrev pub context_parser : Option HttpParser → HttpParser
context_parser none = Parser.fresh
context_parser (some p) = p

module _ (walk : Headers → Headers) (date : Bytes) (config : Config) where
  unfoldable pub on_request : HttpRequest → List Call
  unfolding prepare respond
  on_request req =
      let response = respond config.http_callback req (prepare config req) in
      send (append_to_buffer walk date response [])
      ∷ (if response.close_connection then shutdown ∷ [] else [])

  -- What follows the call of the parser.
  unfoldable pub after_parse : Parser.Outcome → Handled
  after_parse o =
      if o.returned
      then record {
        context = some (Parser.reset o.parser);
        buffer = o.rest;
        calls = on_request o.request;
      }
      else record {
        context = some o.parser;
        buffer = o.rest;
        calls = if o.parser.has_error then shutdown ∷ [] else [];
      }

  -- The request is a new one at each call. `none` if the parser's loop runs out of fuel.
  unfoldable pub on_message : Option HttpParser → Buffer → Option Handled
  unfolding after_parse
  on_message context buffer = elim (parse_request buffer (context_parser context) Request.fresh) [
    | none ↦ none
    | some o ↦ some (after_parse o)
  ]
