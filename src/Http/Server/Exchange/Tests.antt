-- ===== src/Http/Server/Exchange/Tests.antt =====
-- A request of two pieces on a new connection: the second `readv` completes it.
use tzzero_http.Prelude.{
  take, true, add_size, sub_size, false, ◌/◌, ◌+◌, ◌<◌, ◌≡◌, ◌⊎◌, refl, arith, none, some, [], ◌∷◌,
  ◌++◌, Bytes, codes, length, if◌then◌else◌, ℕ,
}
use tzzero_http.Buffer
use tzzero_http.Buffer.{append, readable_bytes, SysResult, done, make as make_buffer}
use tzzero_http.Buffer.Bounds.{IsValid, max_size, make-IsValid}
use tzzero_http.Http.Headers.{Headers}
use tzzero_http.Http.Parser
use tzzero_http.Http.Request
use tzzero_http.Http.Samples.{sample_request, sample_request-IsWellFormed}
use tzzero_http.Http.Headers
use tzzero_http.Http.Headers.{find}
use tzzero_http.Http.Numbers.{decimal}
use tzzero_http.Http.Request.{header_lines}
use tzzero_http.Http.Response.{
  ok, append_to_buffer, status_line, code_number, status_message, server_line, date_line,
  has_header, set_header, set_close_connection,
}
use tzzero_http.Http.Server.{Config, prepare, respond}
use tzzero_http.Http.Server.Exchange.{Session, answer, serve, reply, closes}
use tzzero_http.Http.Server.Exchange.Answered.{serve_lem}
use tzzero_http.Http.Server.Exchange.Truncated.{truncated_lem}
use tzzero_http.Net.Connection.Events.{writes, step, run}
use tzzero_http.Net.Connection.Stalled.{quiet}
use tzzero_http.Net.Connection.{
  send_in_loop, shutdown, handle_write, read_write, Connection, connected, disconnecting, read_only,
}
use tzzero_http.Net.Connection.Sending.{stream, gives_up, Fits}
use tzzero_http.Net.Connection.Watching.{IsConsistent}

abbrev walk : Headers → Headers
walk h = h

abbrev date : Bytes
date = codes "Thu, 01 Jan 1970 00:00:00 GMT"

abbrev fresh_connection : Connection
fresh_connection = record {
  state = connected;
  input = make_buffer 4;
  output = make_buffer 4;
  high_water_mark = 64;
  has_write_complete = true;
  has_high_water = true;
  interest = some read_only;
  queued = [];
  sent = [];
  write_shut = false;
  close_calls = 0;
}

abbrev session : Session
session = record { connection = fresh_connection; context = none }

-- Every request is answered with a small page.
abbrev config : Config
config = record {
  keep_alive_enabled = true;
  keep_alive_timeout = 5;
  http_callback = some (λ req r. record r {
    status_code = ok;
    close_connection = true;
    headers = [];
    body = codes "hi";
  });
}

-- A kernel that takes half of what it is given.
abbrev write : Bytes → SysResult ℕ
write text = done (length text / 2)

-- The request without its first letter.
abbrev tail : Bytes
tail = codes "OST /a?b=1 HTTP/1.1\r\nhost: x\r\ncontent-length: 2\r\n\r\nhi"

length-reply : length (reply walk date config sample_request) ≡ 101
unfolding reply answer append_to_buffer respond status_line code_number status_message server_line
    date_line header_lines decimal has_header Headers.has_header find prepare set_header
    set_close_connection Headers.set_header
length-reply = refl

received_lem :
    Buffer.to_string (make_buffer 4) ++ 80 ∷ tail ≡ Request.to_string sample_request ++ []
unfolding Buffer.to_string make_buffer Request.to_string Request.method_string
    Request.version_string sub_size add_size
received_lem = refl

session-IsConsistent : IsConsistent fresh_connection
session-IsConsistent = record { watched = refl; notified = refl }

buffer-IsValid : IsValid (make_buffer 4)
buffer-IsValid = make-IsValid 4 (omega arith)

buffer-room : length (make_buffer 4).store + length (80 ∷ tail) < max_size
unfolding make_buffer add_size
buffer-room = omega arith

reply-room : (make_buffer 4).write_index + length (reply walk date config sample_request) < max_size
unfolding make_buffer
reply-room = omega (arith, length-reply)

write-Fits :
    Fits
      (length (reply walk date config sample_request))
      (write (reply walk date config sample_request))
write-Fits = omega arith

serve_lem_example :
    (s' : Session) × (serve walk date config write (done (80 ∷ tail)) session ≡ some s')
    × (Buffer.to_string s'.connection.input ≡ [])
    × (s'.context ≡ some Parser.fresh)
    × (s'.connection.state
        ≡ (if closes walk date config sample_request then disconnecting else connected))
    × ((stream s'.connection ≡ stream fresh_connection ++ reply walk date config sample_request)
        ⊎ (gives_up (write (reply walk date config sample_request)) ≡ true))
serve_lem_example =
    serve_lem walk date config write session 80 tail sample_request [] session-IsConsistent refl
      refl buffer-IsValid buffer-room received_lem sample_request-IsWellFormed buffer-IsValid
      reply-room write-Fits

abbrev hello : Bytes
hello = codes "hello"

-- The kernel has taken two bytes.
abbrev half_sent : Connection
half_sent = record fresh_connection {
  output = append (make_buffer 4) (codes "llo");
  interest = some read_write;
  sent = codes "he";
}

hello-send_in_loop : send_in_loop hello (done 2) fresh_connection ≡ some half_sent
unfolding send_in_loop append make_buffer readable_bytes sub_size
hello-send_in_loop = refl

-- The kernel is ready for the rest.
half_sent-run :
    run (writes (done 3) ∷ []) (shutdown true half_sent)
    ≡ some (record half_sent { state = disconnecting })
unfolding run step shutdown handle_write append make_buffer readable_bytes sub_size add_size
    Buffer.ensure_writable_bytes Buffer.writable_bytes
half_sent-run = refl

buffer-empty : readable_bytes (make_buffer 4) ≡ 0
unfolding readable_bytes make_buffer sub_size
buffer-empty = refl

hello-room : (make_buffer 4).write_index + length hello < max_size
unfolding make_buffer
hello-room = omega arith

truncated_lem_example :
    ◌≡◌ {A = Bytes} (codes "he") ([] ++ take 2 hello) × (fresh_connection.write_shut ≡ false)
unfolding quiet
truncated_lem_example =
    truncated_lem hello 2 fresh_connection half_sent (record half_sent { state = disconnecting })
      (writes (done 3) ∷ []) refl buffer-empty buffer-IsValid hello-room (omega arith) refl refl
      hello-send_in_loop half_sent-run
