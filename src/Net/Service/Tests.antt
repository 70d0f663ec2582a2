-- ===== src/Net/Service/Tests.antt =====
-- A server and its connections at work: two connections come, the first one's peer closes it, and then
-- the server is destroyed.
use tzzero_http.Prelude.{
  ◌=?◌, ◌+◌, ◌≤◌, ◌≡◌, ◌⊎◌, ◌++◌, refl, true, false, some, none, List, [], ◌∷◌, Bytes, length,
  codes, arith,
}
use tzzero_http.Http.Numbers.{decimal}
use tzzero_http.Buffer.{done}
use tzzero_http.Net.Acceptor.{make as make_acceptor, set_new_connection_callback, listen}
use tzzero_http.Net.EventLoopThreadPool.{make as make_pool, start as start_pool, get_next_loop}
use tzzero_http.Net.Connection.Events.{established, reads, step as step_connection}
use tzzero_http.Net.Connection.{
  Connection, connected, disconnected, read_only, make as make_connection, connection_established,
  connection_destroyed, is_connected, handle_read, handle_close,
}
use tzzero_http.Net.TcpServer.{
  Conn, establishes, destroys, find, TcpServer, make as make_server, start, new_connection,
  remove_connection_in_loop,
}
use tzzero_http.Net.Service.{
  Service, make, Event, starts, removes, arrives, happens, step, run, find_object, iterator_invalid,
  aborts, destruct_alone,
}
use tzzero_http.Net.Service.Removals.{
  IsAccounted, make-IsAccounted, run-IsAccounted, removal_succeeds,
}
use tzzero_http.Net.Service.Destructor.{destruct_alone_undefined}

abbrev created : TcpServer
created = make_server (some 3) 0 (codes "0.0.0.0") 80 (codes "web")

created-length : length created.ip_port ≤ 51
unfolding make_server decimal
created-length = omega arith

created-IsAccounted : IsAccounted (make created)
created-IsAccounted = make-IsAccounted (some 3) 0 80 (codes "0.0.0.0") (codes "web") created-length

abbrev first_name : Bytes
first_name = codes "web-0.0.0.0:80#1"

abbrev second_name : Bytes
second_name = codes "web-0.0.0.0:80#2"

abbrev events : List Event
events =
    starts (λ i. i + 1) true
    ∷ arrives false 7
    ∷ happens first_name established
    ∷ arrives false 8
    ∷ happens second_name established
    ∷ happens first_name (reads (done []))
    ∷ []

abbrev fresh_connection : Connection
fresh_connection = make_connection false false

abbrev closed_connection : Connection
closed_connection = record fresh_connection { state = disconnected; close_calls = 1 }

abbrev open_connection : Connection
open_connection = record fresh_connection { state = connected; interest = some read_only }

abbrev first : Conn
first = record { name = first_name; io_loop = 0; socket = 7 }

abbrev second : Conn
second = record { name = second_name; io_loop = 0; socket = 8 }

abbrev closing : Service
closing = record {
  server = record created {
    acceptor = record created.acceptor { listening = true; watched = true };
    thread_pool = record created.thread_pool { started = true };
    started = true;
    next_conn_id = 3;
    connections = second ∷ first ∷ [];
    posts = establishes first ∷ establishes second ∷ [];
  };
  objects = (second_name, open_connection) ∷ (first_name, closed_connection) ∷ [];
  removals = first_name ∷ [];
}

events-run : run events (make created) ≡ some closing
unfolding run make_server start_pool make_pool set_new_connection_callback make_acceptor listen
    get_next_loop ◌=?◌ decimal make_connection connection_established handle_read handle_close start
    make new_connection step_connection
events-run = refl

removal_succeeds_example : (w : Service) × (step removes closing ≡ some w) × (w.removals ≡ [])
removal_succeeds_example =
    removal_succeeds events (make created) closing first_name [] created-IsAccounted events-run refl

abbrev served : Service
served = record closing {
  server = record closing.server {
    connections = second ∷ [];
    posts = establishes first ∷ establishes second ∷ destroys first ∷ [];
  };
  removals = [];
}

closing-removes : run (removes ∷ []) closing ≡ some served
unfolding run ◌=?◌ remove_connection_in_loop
closing-removes = refl

closing-IsAccounted : IsAccounted closing
closing-IsAccounted = run-IsAccounted events (make created) closing created-IsAccounted events-run

served-IsAccounted : IsAccounted served
served-IsAccounted =
    run-IsAccounted (removes ∷ []) closing served closing-IsAccounted closing-removes

-- The connection is connected, so the loop stands on an element that was erased.
destruct_alone_run :
    destruct_alone served
    ≡ iterator_invalid (record served {
      server = record served.server {
        connections = [];
        posts = served.server.posts ++ destroys second ∷ [];
      };
      objects = (second_name, closed_connection) ∷ (first_name, closed_connection) ∷ [];
    })
unfolding destruct_alone ◌=?◌ connection_destroyed make_connection remove_connection_in_loop
destruct_alone_run = refl

destruct_alone_undefined_example :
    (c : Connection) × (find_object second_name served.objects ≡ some c)
    × (((is_connected c.state ≡ true)
          × ((w : Service) × (destruct_alone served ≡ iterator_invalid w)
              × (w.server.connections ≡ [])
              × (find second_name [] ≡ none)))
        ⊎ ((is_connected c.state ≡ false)
            × (((w : Service) × (destruct_alone served ≡ iterator_invalid w))
                ⊎ (destruct_alone served ≡ aborts))))
destruct_alone_undefined_example =
    destruct_alone_undefined served second [] served-IsAccounted refl refl
