-- ===== src/Program/Startup/Serving.antt =====
-- The server that `main` of src/main.cpp starts.
use tzzero_http.Prelude.{
  ℕ, ◌<◌, ◌≡◌, refl, sym, ap, ◌∙◌, arith, subst, inl, inr, Bool, true, false, ◌==◌, Option, none,
  some, Option-cases, Bool-cases, List, [], ◌∷◌, ◌++◌, Bytes,
}
use tzzero_http.Http.Numbers.{decimal}
use tzzero_http.Http.Server.{Config}
use tzzero_http.Http.Server.Lifecycle.{
  HttpServer, make, start, set_thread_num, set_http_callback, enable_keep_alive,
  set_keep_alive_timeout,
}
use tzzero_http.Net.Acceptor
use tzzero_http.Net.EventLoopThreadPool
use tzzero_http.Net.EventLoopThreadPool.{start_threads}
use tzzero_http.Net.TcpServer
use tzzero_http.Program.Handler.{http_handler}
use tzzero_http.Program.Options.{
  ℤ, Settings, Parsed, ready, returns, throws, defaults, parse_options,
}
use tzzero_http.Program.Options.Chosen.{
  last_value, chosen, first_stop, first_stop-ready, parse_options_lem, last_value-bound,
}
use tzzero_http.Program.Startup.{
  level_of, set_log_file, configure_logger, thread_count, configure_server, start_server, serves,
  serve, run, main_from, main,
}
use tzzero_http.Utils.Logger.{Logger, LogLevel, set_level}

abbrev pub main_config : Bool → Config
main_config enable_keepalive = record {
  keep_alive_enabled = enable_keepalive;
  keep_alive_timeout = 60;
  http_callback = some http_handler;
}

-- A server that listens at the address of the settings, has the pool's threads running, and has
-- no connection.
pub record IsServing (loop_of : ℕ → ℕ) (s : Settings) (server : HttpServer) : Type 0 where
  pub configured : server.config ≡ main_config s.enable_keepalive
  pub address : server.server.ip_port ≡ s.listen_addr ++ b':' ∷ decimal s.port
  pub running : server.server.started ≡ true
  pub listens : server.server.acceptor.listening ≡ true
  pub watched : server.server.acceptor.watched ≡ true
  pub loops : server.server.thread_pool.loops ≡ start_threads loop_of 0 (thread_count s.thread_num)
  pub alone : server.server.connections ≡ []

start_server-IsServing :
    (idle : Option ℕ) (loop_of : ℕ → ℕ) (s : Settings)
    → (server : HttpServer) × (start_server idle loop_of true s ≡ some server)
      × IsServing loop_of s server
unfolding start_server set_thread_num make start configure_server TcpServer.make TcpServer.start
    TcpServer.set_thread_num TcpServer.set_connection_callback Acceptor.listen Acceptor.make
    Acceptor.set_new_connection_callback EventLoopThreadPool.make EventLoopThreadPool.start
    EventLoopThreadPool.set_thread_num set_http_callback enable_keep_alive set_keep_alive_timeout
start_server-IsServing idle loop_of s = (
  _,
  refl,
  record {
    configured = refl;
    address = refl;
    running = refl;
    listens = refl;
    watched = refl;
    loops = refl;
    alone = refl;
  },
)

some_injective : {a b : HttpServer} → some a ≡ some b → a ≡ b
some_injective h = cc

start_server_fails :
    (idle : Option ℕ) (loop_of : ℕ → ℕ) (s : Settings) → start_server idle loop_of false s ≡ none
unfolding start_server set_thread_num make start configure_server TcpServer.make TcpServer.start
    TcpServer.set_thread_num TcpServer.set_connection_callback Acceptor.listen Acceptor.make
    Acceptor.set_new_connection_callback EventLoopThreadPool.make EventLoopThreadPool.start
    EventLoopThreadPool.set_thread_num set_http_callback enable_keep_alive set_keep_alive_timeout
start_server_fails idle loop_of s = refl

always_true :
    (letter : ℕ) (os : List (ℕ × Bytes)) → last_value (λ t. some true) letter os true ≡ true
unfolding last_value
always_true letter [] = refl
always_true letter ((c, optarg) ∷ os) = elim (Bool-cases (c == letter)) [
  | inl e ↦ rw e (always_true letter os)
  | inr e ↦ rw e (always_true letter os)
]

serve_config :
    (idle : Option ℕ) (loop_of : ℕ → ℕ) (bound : Bool) (s : Settings) (server : HttpServer)
    → start_server idle loop_of bound s ≡ some server
    → server.config ≡ main_config s.enable_keepalive
serve_config idle loop_of true s server e =
    let (made, same, up) = start_server-IsServing idle loop_of s in
    subst (λ (h : HttpServer). h.config ≡ main_config s.enable_keepalive)
      (some_injective (sym same ∙ e)) up.configured
serve_config idle loop_of false s server e =
    absurd (cc (sym (start_server_fails idle loop_of s) ∙ e))

abbrev pub settings : (Bytes → Option ℤ) → ℕ → List (ℕ × Bytes) → Settings
settings stoi cpus os = chosen stoi os (defaults cpus)

module _ (stoi : Bytes → Option ℤ) (cpus : ℕ) (opened : Bool) (idle : Option ℕ) (loop_of : ℕ → ℕ)
    (l : Logger) (os : List (ℕ × Bytes)) (binds : Bytes → ℕ → Bool) where
  run_serves :
      (s : Settings) (level : LogLevel) (server : HttpServer)
      → level_of s.log_level ≡ some level
      → binds s.listen_addr s.port ≡ true
      → start_server idle loop_of true s ≡ some server
      → run opened idle loop_of binds l s
        ≡ serves (set_log_file opened s.log_file (set_level level l)) server
  unfolding run serve
  run_serves s level server known bound e =
      let l' = set_log_file opened s.log_file (set_level level l) in
      let configured : configure_logger opened s l ≡ some l' = rw (known, configure_logger) refl in
      rw (configured, run)
        (ap (λ made. serve made l') (ap (λ ok. start_server idle loop_of ok s) bound ∙ e))

  -- If every option is a setting, the level is a known one and the socket can be bound, the program
  -- gets to its event loop with a server that listens at the chosen address, on a port below 65536,
  -- and runs the chosen number of threads; the responses are those of `http_handler`, with keep-alive
  -- on, and the logger has its file and the level.
  pub main_serves :
      (level : LogLevel)
      → first_stop stoi os (settings stoi cpus os) ≡ ready (settings stoi cpus os)
      → level_of (settings stoi cpus os).log_level ≡ some level
      → binds (settings stoi cpus os).listen_addr (settings stoi cpus os).port ≡ true
      → (server : HttpServer) × (main stoi cpus opened idle loop_of binds l os
          ≡ serves
              (set_log_file opened (settings stoi cpus os).log_file (set_level level l))
              server)
        × IsServing loop_of (settings stoi cpus os) server
        × ((settings stoi cpus os).port < 65536)
        × ((settings stoi cpus os).enable_keepalive ≡ true)
  unfolding main chosen
  main_serves level go known bound =
      let (server, e, up) = start_server-IsServing idle loop_of (settings stoi cpus os) in
      let parsed = parse_options_lem stoi os (defaults cpus) ∙ go in
      (
        server,
        ap (main_from opened idle loop_of binds l) parsed
            ∙ run_serves (settings stoi cpus os) level server known bound e,
        up,
        last_value-bound stoi os 3000 (omega arith),
        always_true b'k' os,
      )

  served : (a b : Logger) (s t : HttpServer) → serves a s ≡ serves b t → s ≡ t
  served a b s t h = cc

  run_config :
      (s : Settings) (l' : Logger) (server : HttpServer)
      → run opened idle loop_of binds l s ≡ serves l' server
      → server.config ≡ main_config s.enable_keepalive
  unfolding run serve
  run_config s l' server h = elim (Option-cases (configure_logger opened s l)) [
    | inl q ↦ absurd (cc (rw (q, run) at h))
    | inr (l1, q) ↦ elim (Option-cases (start_server idle loop_of (binds s.listen_addr s.port) s)) [
      | inl r ↦ absurd (cc (rw (q, r, run, serve) at h))
      | inr (made, r) ↦
          subst (λ (x : HttpServer). x.config ≡ main_config s.enable_keepalive)
            (served l1 l' made server (rw (q, r, run, serve) at h))
            (serve_config idle loop_of (binds s.listen_addr s.port) s made r)
    ]
  ]

  parsed_config :
      (r : Parsed) (l' : Logger) (server : HttpServer)
      → main_from opened idle loop_of binds l r ≡ serves l' server
      → first_stop stoi os (settings stoi cpus os) ≡ r
      → server.config ≡ main_config true
  unfolding last_value chosen
  parsed_config (ready s) l' server h e =
      run_config s l' server h
      ∙ ap (λ (x : Settings). main_config x.enable_keepalive)
          (sym (first_stop-ready stoi os (settings stoi cpus os) s e))
      ∙ ap main_config (always_true b'k' os)
  parsed_config (returns status) l' server h e = absurd (cc)
  parsed_config throws l' server h e = absurd (cc)

  -- However the program gets to its event loop, its server has `http_handler`, keep-alive and its
  -- timeout of a minute.
  pub main-config :
      (l' : Logger) (server : HttpServer)
      → main stoi cpus opened idle loop_of binds l os ≡ serves l' server
      → server.config ≡ main_config true
  unfolding main
  main-config l' server h =
      parsed_config (parse_options stoi os (defaults cpus)) l' server h
        (sym (parse_options_lem stoi os (defaults cpus)))
