-- ===== src/Program/Startup.antt =====
-- `main` of src/main.cpp behind the command line, up to the event loop, and the signal handler, where
-- the listening socket can be made. Loop 0 is the main thread's. What is not known here is an argument:
-- `opened` tells whether the log file can be opened, `idle` is the acceptor's descriptor of /dev/null,
-- `loop_of` gives the loops of the pool's threads, and `binds` tells whether `bind_and_listen` returns
-- for an address and a port.
pub mod Serving
pub mod Stopping
use tzzero_http.Prelude.{
  ℕ, Bool, true, false, ◌||◌, ◌==◌, if◌then◌else◌, Option, none, some, List, [], ◌∷◌, Bytes, ◌=?◌,
  codes,
}
use tzzero_http.Core.EventLoop.{EventLoop, quit_from_signal}
use tzzero_http.Http.Server.Lifecycle.{
  HttpServer, make, start, stop, set_thread_num, set_http_callback, enable_keep_alive,
  set_keep_alive_timeout,
}
use tzzero_http.Program.Handler.{http_handler}
use tzzero_http.Program.Options.{
  ℤ, pos, negsuc, Settings, Parsed, ready, returns, throws, defaults, parse_options,
}
use tzzero_http.Utils.Logger.{
  Logger, LogLevel, debug, info, warn, error, set_level, set_output_file, set_max_file_size,
  set_max_files,
}

unfoldable pub level_of : Bytes → Option LogLevel
level_of name =
    if name =? codes "DEBUG"
    then some debug
    else if name =? codes "INFO"
    then some info
    else if name =? codes "WARN"
    then some warn
    else if name =? codes "ERROR"
    then some error
    else none

-- The log file is set only where one is named.
unfoldable pub set_log_file : Bool → Bytes → Logger → Logger
set_log_file opened file l =
    if file =? []
    then l
    else set_max_files 10 (set_max_file_size 100 (set_output_file opened file l))

-- `none` is a level that is not known.
unfoldable pub configure_logger : Bool → Settings → Logger → Option Logger
unfolding level_of set_log_file
configure_logger opened s l = elim (level_of s.log_level) [
  | none ↦ none
  | some level ↦ some (set_log_file opened s.log_file (set_level level l))
]

-- A negative number of threads starts none, as 0 does.
abbrev pub thread_count : ℤ → ℕ
thread_count (pos n) = n
thread_count (negsuc n) = 0

unfoldable pub configure_server : Bool → HttpServer → HttpServer
configure_server enable_keepalive s =
    set_http_callback http_handler
      (set_keep_alive_timeout 60 (enable_keep_alive enable_keepalive s))

unfoldable pub start_server : Option ℕ → (ℕ → ℕ) → Bool → Settings → Option HttpServer
unfolding configure_server
start_server idle loop_of bound s =
    elim (set_thread_num (thread_count s.thread_num)
      (make idle 0 s.listen_addr s.port (codes "TZZeroHTTP"))) [
        | none ↦ none
        | some server ↦ start loop_of bound (configure_server s.enable_keepalive server)
      ]

-- What `main` comes to: the event loop, with its logger and its server; a status; or the end of the
-- process by an exception.
pub data Started : Type 0 where
  serves : Logger → HttpServer → Started
  exits : ℕ → Started
  terminates : Started

-- An exception in the `try` block gives the status 1.
unfoldable pub serve : Option HttpServer → Logger → Started
serve none l = exits 1
serve (some server) l = serves l server

unfoldable pub run : Bool → Option ℕ → (ℕ → ℕ) → (Bytes → ℕ → Bool) → Logger → Settings → Started
unfolding configure_logger start_server serve
run opened idle loop_of binds l s = elim (configure_logger opened s l) [
  | none ↦ exits 1
  | some l' ↦ serve (start_server idle loop_of (binds s.listen_addr s.port) s) l'
]

abbrev pub main_from : Bool → Option ℕ → (ℕ → ℕ) → (Bytes → ℕ → Bool) → Logger → Parsed → Started
main_from opened idle loop_of binds l (ready s) = run opened idle loop_of binds l s
main_from opened idle loop_of binds l (returns status) = exits status
main_from opened idle loop_of binds l throws = terminates

unfoldable pub main :
    (Bytes → Option ℤ)
    → ℕ
    → Bool
    → Option ℕ
    → (ℕ → ℕ)
    → (Bytes → ℕ → Bool)
    → Logger
    → List (ℕ × Bytes)
    → Started
unfolding run
main stoi hardware_concurrency opened idle loop_of binds l os =
    main_from opened idle loop_of binds l (parse_options stoi os (defaults hardware_concurrency))

-- The handler, with the server and the loop set, where the signal reaches the main thread: the functor
-- of `stop` is run at once.
unfoldable pub signal_handler : ℕ → HttpServer → EventLoop → Option (HttpServer × EventLoop)
signal_handler sig server loop =
    if sig == 2 || sig == 15
    then elim (stop server) [ none ↦ none | some server' ↦ some (server', quit_from_signal loop) ]
    else some (server, loop)
