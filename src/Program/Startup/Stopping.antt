-- ===== src/Program/Startup/Stopping.antt =====
-- The signals that end the program of src/main.cpp.
use tzzero_http.Prelude.{
  ℕ, ◌≡◌, refl, ap, ◌∙◌, arith, true, false, ◌||◌, ◌==◌, if◌then◌else◌, Option, none, some, List,
  [], ◌∷◌, ◌++◌,
}
use tzzero_http.Core.EventLoop
use tzzero_http.Core.EventLoop.{
  EventLoop, created, checking, polling, checks, starts, quit_from_signal,
}
use tzzero_http.Http.Server.Lifecycle.{HttpServer, stop}
use tzzero_http.Net.Acceptor.{disable_listening}
use tzzero_http.Net.TcpServer
use tzzero_http.Net.TcpServer.{shut_all}
use tzzero_http.Program.Startup.{signal_handler}

-- The server takes no connection any more, and each of its connections is to be shut down by its loop.
pub record IsStopped (before after : HttpServer) : Type 0 where
  pub deaf : after.server.acceptor.listening ≡ false
  pub unwatched : after.server.acceptor.watched ≡ false
  pub kept : after.server.connections ≡ before.server.connections
  pub shut : after.server.posts ≡ before.server.posts ++ shut_all before.server.connections

abbrev stopped : HttpServer → HttpServer
stopped s = record s {
  server = record s.server {
    acceptor = record s.server.acceptor { listening = false; watched = false };
    posts = s.server.posts ++ shut_all s.server.connections;
  };
}

stop_lem :
    (s : HttpServer)
    → s.server.acceptor.watched ≡ s.server.acceptor.listening
    → stop s ≡ some (stopped s)
unfolding stop TcpServer.stop disable_listening
stop_lem s w = ground (arith, w)

stopped-IsStopped : (s : HttpServer) → IsStopped s (stopped s)
stopped-IsStopped s = record { deaf = refl; unwatched = refl; kept = refl; shut = refl }

handled :
    (sig : ℕ) (server : HttpServer) (loop : EventLoop)
    → (sig == 2 || sig == 15) ≡ true
    → server.server.acceptor.watched ≡ server.server.acceptor.listening
    → signal_handler sig server loop ≡ some (stopped server, quit_from_signal loop)
unfolding signal_handler
handled sig server loop ends w =
    ap (λ c. if c then handled_by (stop server) else some (server, loop)) ends
    ∙ ap handled_by (stop_lem server w)
  where
    handled_by : Option HttpServer → Option (HttpServer × EventLoop)
    handled_by none = none
    handled_by (some server') = some (server', quit_from_signal loop)

-- The same signal before the main loop is entered, under the same condition: the server does not listen any more, but `loop`
-- takes the request to quit back, so the program goes on to wait in `poll`.
pub signal_before_loop :
    (spawns : ℕ → List ℕ) (sig : ℕ) (server : HttpServer) (loop : EventLoop)
    → (sig == 2 || sig == 15) ≡ true
    → server.server.acceptor.watched ≡ server.server.acceptor.listening
    → loop.phase ≡ created
    → (server' : HttpServer) × (loop' : EventLoop) × (loop'' : EventLoop) × (signal_handler sig
          server loop
        ≡ some (server', loop'))
      × IsStopped server server'
      × (EventLoop.run spawns (starts ∷ checks ∷ []) loop' ≡ some loop'')
      × (loop''.phase ≡ polling)
      × (loop''.quit ≡ false)
unfolding EventLoop.run EventLoop.step EventLoop.start EventLoop.check quit_from_signal
signal_before_loop spawns sig server loop ends w p = (
  stopped server,
  quit_from_signal loop,
  record (quit_from_signal loop) { phase = polling; quit = false; signalled = false },
  handled sig server loop ends w,
  stopped-IsStopped server,
  rw p refl,
  refl,
  refl,
)
