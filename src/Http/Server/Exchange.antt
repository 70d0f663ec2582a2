-- ===== src/Http/Server/Exchange.antt =====
-- A connection with the server's message callback: `TcpConnection::handle_read` of
-- src/net/tcp_connection.cpp over `HttpServer::on_message` of src/http/http_server.cpp, whose calls are
-- made on the connection. `write` is what the kernel answers to the write of a text.
pub mod Answered
pub mod Truncated
mod Tests
use tzzero_http.Prelude.{
  ℕ, suc, ◌+◌, ◌<◌, ◌≤◌, ◌≡◌, ◌⊎◌, refl, sym, ap, ◌∙◌, arith, subst, inl, inr, Bool, true, false,
  if◌then◌else◌, Bool-cases, Option, Option-cases, none, some, List, [], ◌∷◌, ◌++◌, Bytes, length,
}
use tzzero_http.Buffer.{Buffer, SysResult, done, failed, read_fd, to_string}
use tzzero_http.Buffer.Bounds.{IsValid, max_size}
use tzzero_http.Buffer.Descriptor.{read_fd_lem}
use tzzero_http.Http.Headers.{Headers}
use tzzero_http.Http.Parser
use tzzero_http.Http.Parser.{HttpParser}
use tzzero_http.Http.Request
use tzzero_http.Http.Request.{HttpRequest, parse_complete}
use tzzero_http.Http.Response.{HttpResponse, append_to_buffer}
use tzzero_http.Http.RoundTrip.{IsWellFormed}
use tzzero_http.Http.Server
use tzzero_http.Http.Server.{
  Config, Call, set_context, set_tcp_no_delay, set_keep_alive, Handled, prepare, respond,
  on_request, on_message, context_parser,
}
use tzzero_http.Http.Server.Replies.{on_message_answers}
use tzzero_http.Net.Connection.{
  Connection, State, is_open, connected, disconnecting, send, send_in_loop, shutdown,
  shutdown_in_loop, handle_read, try_write, direct_write, keep_rest, modify_fd, warn_high_water,
}
use tzzero_http.Net.Connection.Delivery.{send_in_loop_lem, send_in_loop_total}
use tzzero_http.Net.Connection.Sending.{stream, gives_up, Fits}
use tzzero_http.Net.Connection.Watching.{has_entry, IsConsistent, send_in_loop-Same}

-- A connection and its context.
pub record Session : Type 0 where
  pub connection : Connection
  pub context : Option HttpParser

abbrev pub with_connection : Session → Option Connection → Option Session
with_connection s none = none
with_connection s (some c) = some (record s { connection = c })

unfoldable pub perform : (Bytes → SysResult ℕ) → Call → Session → Option Session
unfolding shutdown send
perform write (set_context p) s = some (record s { context = some p })
perform write (set_tcp_no_delay on) s = some s
perform write (set_keep_alive on) s = some s
perform write (Server.send text) s = with_connection s (send true text (write text) s.connection)
perform write Server.shutdown s = some (record s { connection = shutdown true s.connection })

unfoldable pub perform_all : (Bytes → SysResult ℕ) → List Call → Session → Option Session
unfolding perform
perform_all write [] s = some s
perform_all write (c ∷ cs) s = elim (perform write c s) [
  | none ↦ none
  | some s' ↦ perform_all write cs s'
]

module _ (walk : Headers → Headers) (date : Bytes) (config : Config)
    (write : Bytes → SysResult ℕ) where
  unfoldable pub message_callback : Session → Option Session
  unfolding perform_all
  message_callback s = elim (on_message walk date config s.context s.connection.input) [
    | none ↦ none
    | some h ↦
        perform_all write h.calls
          (record s { connection = record s.connection { input = h.buffer }; context = h.context })
  ]

  -- `handle_read` with this callback.
  unfoldable pub serve : SysResult Bytes → Session → Option Session
  unfolding message_callback
  serve (done (x ∷ bytes)) s = message_callback (record s {
    connection = record s.connection { input = read_fd s.connection.input (done (x ∷ bytes)) };
  })
  serve (done []) s = with_connection s (handle_read (λ c. some c) (done []) s.connection)
  serve (failed errno) s = with_connection s (handle_read (λ c. some c) (failed errno) s.connection)

module _ (walk : Headers → Headers) (date : Bytes) (config : Config) where
  unfoldable pub answer : HttpRequest → HttpResponse
  answer req =
      let parsed = record req { parse_state = parse_complete; stream_id = 0 } in
      respond config.http_callback parsed (prepare config parsed)

  -- The text of the response.
  unfoldable pub reply : HttpRequest → Bytes
  unfolding answer
  reply req = append_to_buffer walk date (answer req) []

  unfoldable pub closes : HttpRequest → Bool
  unfolding answer
  closes req = (answer req).close_connection

  pub calls_answer :
      (req : HttpRequest)
      → on_request walk date config (record req { parse_state = parse_complete; stream_id = 0 })
        ≡ Server.send (reply req) ∷ (if closes req then Server.shutdown ∷ [] else [])
  unfolding on_request reply closes answer
  calls_answer req = refl
