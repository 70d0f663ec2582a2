-- ===== src/Http/Server/Lifecycle.antt =====
-- include/tzzero/http/http_server.h and src/http/http_server.cpp: the server itself, over the server of
-- connections of src/net/tcp_server.cpp. `none` is as in Net/TcpServer.antt. The callbacks that the
-- constructor sets are those of Http/Server.antt.
use tzzero_http.Prelude.{ℕ, Bool, true, false, Option, none, some, Bytes}
use tzzero_http.Http.Request.{HttpRequest}
use tzzero_http.Http.Response.{HttpResponse}
use tzzero_http.Http.Server.{Config}
use tzzero_http.Net.TcpServer
use tzzero_http.Net.TcpServer.{TcpServer}

pub record HttpServer : Type 0 where
  pub server : TcpServer
  pub config : Config
  pub http2_enabled : Bool

-- `idle` is the acceptor's descriptor of /dev/null.
unfoldable pub make : Option ℕ → ℕ → Bytes → ℕ → Bytes → HttpServer
make idle loop listen_addr port name = record {
  server = TcpServer.set_connection_callback (TcpServer.make idle loop listen_addr port name);
  config = record { keep_alive_enabled = true; keep_alive_timeout = 60; http_callback = none };
  http2_enabled = false;
}

abbrev with_server : HttpServer → Option TcpServer → Option HttpServer
with_server s none = none
with_server s (some server) = some (record s { server = server })

unfoldable pub start : (ℕ → ℕ) → Bool → HttpServer → Option HttpServer
start loop_of bound s = with_server s (TcpServer.start loop_of bound s.server)

unfoldable pub stop : HttpServer → Option HttpServer
stop s = with_server s (TcpServer.stop s.server)

unfoldable pub set_thread_num : ℕ → HttpServer → Option HttpServer
set_thread_num n s = with_server s (TcpServer.set_thread_num n s.server)

unfoldable pub set_http_callback :
    (HttpRequest → HttpResponse → HttpResponse) → HttpServer → HttpServer
set_http_callback cb s = record s { config = record s.config { http_callback = some cb } }

unfoldable pub enable_keep_alive : Bool → HttpServer → HttpServer
enable_keep_alive enable s = record s { config = record s.config { keep_alive_enabled = enable } }

unfoldable pub set_keep_alive_timeout : ℕ → HttpServer → HttpServer
set_keep_alive_timeout seconds s = record s {
  config = record s.config { keep_alive_timeout = seconds };
}

unfoldable pub enable_http2 : Bool → HttpServer → HttpServer
enable_http2 enable s = record s { http2_enabled = enable }
