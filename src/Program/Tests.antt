-- ===== src/Program/Tests.antt =====
-- The program of src/main.cpp, started with four options.
use tzzero_http.Prelude.{
  ℕ, Bool, ◌+◌, ◌≡◌, refl, ◌∙◌, arith, true, false, if◌then◌else◌, ◌=?◌, ◌<◌, ◌++◌, Option, none,
  some, List, [], ◌∷◌, Bytes, codes, length,
}
use tzzero_http.Buffer.{to_string}
use tzzero_http.Buffer.Samples.{holding, holding-IsValid, to_string-holding}
use tzzero_http.Core.EventLoop
use tzzero_http.Core.EventLoop.{EventLoop, polling, created, starts, make as make_loop}
use tzzero_http.Http.Headers.{Headers}
use tzzero_http.Http.Numbers.{decimal}
use tzzero_http.Http.Request
use tzzero_http.Http.Request.{keep_alive}
use tzzero_http.Http.Response.{HttpResponse, ok, not_found, get_header, append_to_buffer}
use tzzero_http.Http.Response.Length.{content_length}
use tzzero_http.Http.Samples.{sample_request, sample_request-IsWellFormed}
use tzzero_http.Http.Server.{Handled, on_message, send, shutdown}
use tzzero_http.Http.Server.Lifecycle.{HttpServer}
use tzzero_http.Net.Acceptor.{bind_and_listen}
use tzzero_http.Program.Answers.{main_answers}
use tzzero_http.Program.Handler.Routes.{is_among, routes}
use tzzero_http.Program.Options.{
  ℤ, pos, to_uint16, Settings, ready, returns, throws, defaults, parse_options,
}
use tzzero_http.Program.Options.Chosen.{last_value, chosen, first_stop, parse_options_lem}
use tzzero_http.Program.Startup.{level_of, set_log_file, serves, main}
use tzzero_http.Program.Startup.Serving.{IsServing, settings, main_serves}
use tzzero_http.Utils.Logger.{Logger, error, set_level, make as make_logger}

-- A reader of numbers that knows two of them.
abbrev stoi : Bytes → Option ℤ
stoi t =
    if t =? codes "70000" then some (pos 70000) else (if t =? codes "2" then some (pos 2) else none)

abbrev options : List (ℕ × Bytes)
options =
    (b'p', codes "70000")
    ∷ (b't', codes "2")
    ∷ (b'L', codes "WARN")
    ∷ (b'L', codes "ERROR")
    ∷ (b'v', [])
    ∷ []

abbrev given : Settings
given = record (defaults 8) {
  port = 4464;
  thread_num = pos 2;
  log_level = codes "ERROR";
  verbose = true;
}

options-chosen : settings stoi 8 options ≡ given
unfolding chosen last_value to_uint16 ◌=?◌
options-chosen = refl

parse_options_lem_example :
    parse_options stoi options (defaults 8)
    ≡ first_stop stoi options (chosen stoi options (defaults 8))
parse_options_lem_example = parse_options_lem stoi options (defaults 8)

options-parsed : parse_options stoi options (defaults 8) ≡ ready given
unfolding first_stop chosen last_value to_uint16 ◌=?◌
options-parsed = parse_options_lem stoi options (defaults 8)

-- A port that is no number is an exception, and an unknown option the status 1.
bad_number : parse_options stoi ((b'v', []) ∷ (b'p', codes "http") ∷ []) (defaults 8) ≡ throws
unfolding first_stop ◌=?◌
bad_number = parse_options_lem stoi ((b'v', []) ∷ (b'p', codes "http") ∷ []) (defaults 8)

bad_option : parse_options stoi ((b'v', []) ∷ (b'?', []) ∷ []) (defaults 8) ≡ returns 1
unfolding first_stop ◌=?◌
bad_option = parse_options_lem stoi ((b'v', []) ∷ (b'?', []) ∷ []) (defaults 8)

abbrev loop_of : ℕ → ℕ
loop_of i = i + 1

abbrev logger : Logger
logger = make_logger (λ f. none)

-- An address of which nothing is known, and a kernel that takes every port.
abbrev binds : Bytes → ℕ → Bool
binds = bind_and_listen (λ t. none) (λ a p. true) (λ a p. true)

options-bound : binds (settings stoi 8 options).listen_addr (settings stoi 8 options).port ≡ true
unfolding bind_and_listen chosen last_value ◌=?◌
options-bound = refl

options-ready : first_stop stoi options (settings stoi 8 options) ≡ ready (settings stoi 8 options)
unfolding first_stop ◌=?◌
options-ready = refl

options-level : level_of (settings stoi 8 options).log_level ≡ some error
unfolding level_of chosen last_value ◌=?◌
options-level = refl

main_serves_example :
    (server : HttpServer) × (main stoi 8 true (some 3) loop_of binds logger options
      ≡ serves
          (set_log_file true (settings stoi 8 options).log_file (set_level error logger))
          server)
    × IsServing loop_of (settings stoi 8 options) server
    × ((settings stoi 8 options).port < 65536)
    × ((settings stoi 8 options).enable_keepalive ≡ true)
main_serves_example =
    main_serves stoi 8 true (some 3) loop_of logger options binds error options-ready options-level
      options-bound

abbrev server : HttpServer
server =
    (main_serves stoi 8 true (some 3) loop_of logger options binds error options-ready options-level
      options-bound).0

abbrev after_start : Logger
after_start = set_log_file true (settings stoi 8 options).log_file (set_level error logger)

server-main : main stoi 8 true (some 3) loop_of binds logger options ≡ serves after_start server
server-main =
    (main_serves stoi 8 true (some 3) loop_of logger options binds error options-ready options-level
      options-bound).1

-- The order in which the headers are walked, and the date.
abbrev walk : Headers → Headers
walk h = h

abbrev date : Bytes
date = codes "Thu, 01 Jan 1970 00:00:00 GMT"

abbrev received : Bytes
received = codes "POST /a?b=1 HTTP/1.1\r\nhost: x\r\ncontent-length: 2\r\n\r\nhi"

received_lem : received ≡ Request.to_string sample_request ++ []
unfolding Request.to_string Request.method_string Request.version_string
received_lem = refl

main_answers_example :
    (h : Handled) × (r : HttpResponse) × (on_message walk date server.config none (holding received)
      ≡ some h)
    × (h.calls
        ≡ send (append_to_buffer walk date r [])
          ∷ (if keep_alive sample_request then [] else shutdown ∷ []))
    × (r.status_code ≡ (if is_among sample_request.path routes then ok else not_found))
    × (get_header r content_length ≡ decimal (length r.body))
    × ((r.body =? []) ≡ false)
    × (to_string h.buffer ≡ [])
main_answers_example =
    main_answers stoi 8 true (some 3) loop_of binds logger after_start options server walk date
      sample_request [] (holding received) server-main (holding-IsValid received (omega arith))
      (to_string-holding received (omega arith) ∙ received_lem) sample_request-IsWellFormed

unknown_path : is_among sample_request.path routes ≡ false
unfolding is_among ◌=?◌
unknown_path = refl

abbrev spawns : ℕ → List ℕ
spawns f = []

abbrev waiting : EventLoop
waiting = record make_loop { phase = polling }
