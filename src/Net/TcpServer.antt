-- ===== src/Net/TcpServer.antt =====
-- include/tzzero/net/tcp_server.h and src/net/tcp_server.cpp: the server's map of its connections,
-- over the listening socket and the pool of loops. Every call runs in the thread of the server's
-- loop: `remove_connection` comes there by `run_in_loop`. What the server puts into the loops of its
-- connections is the list `posts`. `none` is an assertion that fails, an exception, or a connection
-- number past the largest `int`. The log lines are left out.
pub mod Names
pub mod Counts
pub mod Lifetimes
pub mod Changes
pub mod Arrivals
mod Tests
use tzzero_http.Prelude.{
  ℕ, zero, suc, ◌+◌, Bool, true, false, not, ◌&&◌, ◌||◌, ◌==◌, ltb, if◌then◌else◌, Option, none,
  some, List, [], ◌∷◌, ◌++◌, Bytes, ◌=?◌, take,
}
use tzzero_http.Http.Numbers.{decimal}
use tzzero_http.Net.Acceptor.{
  Acceptor, make as make_acceptor, set_new_connection_callback, listen, disable_listening, Answer,
  handle_read as accept_read,
}
use tzzero_http.Net.EventLoopThreadPool.{
  EventLoopThreadPool, make as make_pool, set_thread_num as set_pool_thread_num,
  start as start_pool, get_next_loop,
}

pub record Conn : Type 0 where
  pub name : Bytes
  pub io_loop : ℕ
  pub socket : ℕ

-- A functor for the connection's own loop.
pub data Post : Type 0 where
  establishes : Conn → Post
  shuts : Conn → Post
  destroys : Conn → Post

-- `connections` is the map, by name, and `called` lists the names that the connection callback was
-- given.
pub record TcpServer : Type 0 where
  pub ip_port : Bytes
  pub name : Bytes
  pub acceptor : Acceptor
  pub thread_pool : EventLoopThreadPool
  pub started : Bool
  pub next_conn_id : ℕ
  pub connections : List Conn
  pub has_callback : Bool
  pub called : List Bytes
  pub posts : List Post

unfoldable pub make : Option ℕ → ℕ → Bytes → ℕ → Bytes → TcpServer
make idle loop listen_addr port name = record {
  ip_port = listen_addr ++ b':' ∷ decimal port;
  name = name;
  acceptor = set_new_connection_callback (make_acceptor idle);
  thread_pool = make_pool loop;
  started = false;
  next_conn_id = 1;
  connections = [];
  has_callback = false;
  called = [];
  posts = [];
}

unfoldable pub set_connection_callback : TcpServer → TcpServer
set_connection_callback s = record s { has_callback = true }

unfoldable pub set_thread_num : ℕ → TcpServer → Option TcpServer
set_thread_num n s =
    if s.started
    then none
    else some (record s { thread_pool = set_pool_thread_num n s.thread_pool })

-- `loop_of` gives the loops of the pool's threads, and `bound` tells whether the socket can be
-- bound.
unfoldable pub start : (ℕ → ℕ) → Bool → TcpServer → Option TcpServer
start loop_of bound s =
    if s.started then some s else elim (start_pool loop_of true false s.thread_pool) [
      | none ↦ none
      | some (pool, ran) ↦ if s.acceptor.listening then none else elim (listen bound s.acceptor) [
        | none ↦ none
        | some a ↦ some (record s { started = true; thread_pool = pool; acceptor = a })
      ]
    ]

unfoldable pub shut_all : List Conn → List Post
shut_all [] = []
shut_all (c ∷ cs) = shuts c ∷ shut_all cs

unfoldable pub destroy_all : List Conn → List Post
destroy_all [] = []
destroy_all (c ∷ cs) = destroys c ∷ destroy_all cs

unfoldable pub stop : TcpServer → Option TcpServer
unfolding shut_all
stop s = elim (disable_listening s.acceptor) [
  | none ↦ none
  | some a ↦ some (record s { acceptor = a; posts = s.posts ++ shut_all s.connections })
]

-- The destructor.
unfoldable pub destruct : TcpServer → TcpServer
unfolding destroy_all
destruct s = record s { connections = []; posts = s.posts ++ destroy_all s.connections }

-- `snprintf` writes 63 characters at most.
unfoldable pub conn_name : Bytes → Bytes → ℕ → Bytes
conn_name name ip_port id = name ++ take 63 (b'-' ∷ ip_port ++ b'#' ∷ decimal id)

unfoldable pub erase : Bytes → List Conn → List Conn
erase n [] = []
erase n (c ∷ cs) = if c.name =? n then cs else c ∷ erase n cs

unfoldable pub find : Bytes → List Conn → Option Conn
find n [] = none
find n (c ∷ cs) = if c.name =? n then some c else find n cs

-- `connections_[conn_name] = conn`
unfoldable pub assign : Conn → List Conn → List Conn
unfolding erase
assign c cs = c ∷ erase c.name cs

unfoldable pub connect : ℕ → ℕ → EventLoopThreadPool → TcpServer → TcpServer
unfolding assign conn_name
connect sockfd io_loop pool s =
    let c : Conn = record {
      name = conn_name s.name s.ip_port s.next_conn_id;
      io_loop = io_loop;
      socket = sockfd;
    } in
    record s {
      thread_pool = pool;
      next_conn_id = suc s.next_conn_id;
      connections = assign c s.connections;
      called = if s.has_callback then s.called ++ c.name ∷ [] else s.called;
      posts = s.posts ++ establishes c ∷ [];
    }

unfoldable pub new_connection : ℕ → TcpServer → Option TcpServer
unfolding connect
new_connection sockfd s =
    if ltb s.next_conn_id 2147483647
    then elim (get_next_loop s.thread_pool) [
      | none ↦ none
      | some (io_loop, pool) ↦ some (connect sockfd io_loop pool s)
    ]
    else none

unfoldable pub disconnect : Conn → TcpServer → TcpServer
unfolding erase
disconnect c s = record s {
  connections = erase c.name s.connections;
  posts = s.posts ++ destroys c ∷ [];
}

-- The assertion is that the map has the connection; the one whose close callback asks for its removal
-- is the one with this name.
unfoldable pub remove_connection_in_loop : Bytes → TcpServer → Option TcpServer
unfolding find disconnect
remove_connection_in_loop n s = elim (find n s.connections) [
  | none ↦ none
  | some c ↦ some (disconnect c s)
]

-- The connections that the acceptor hands over, in order.
unfoldable pub take_all : List (ℕ × Bytes) → TcpServer → Option TcpServer
unfolding new_connection
take_all [] s = some s
take_all ((sockfd, peer) ∷ cs) s = elim (new_connection sockfd s) [
  | none ↦ none
  | some s' ↦ take_all cs s'
]

-- The listening socket is readable: the acceptor's `handle_read`, with the callback that the server
-- has set.
unfoldable pub handle_read : (ℕ → Answer) → Option ℕ → Option ℕ → TcpServer → Option TcpServer
unfolding take_all
handle_read accept4 again opened s =
    let a = accept_read accept4 again opened (record s.acceptor { handed = [] }) in
    take_all a.handed (record s { acceptor = a })

-- What happens in the thread of the server's loop.
pub data Event : Type 0 where
  starts : (ℕ → ℕ) → Bool → Event
  stops : Event
  arrives : ℕ → Event
  closes : Bytes → Event

unfoldable pub step : Event → TcpServer → Option TcpServer
unfolding start stop new_connection remove_connection_in_loop
step (starts loop_of bound) s = start loop_of bound s
step stops s = stop s
step (arrives sockfd) s = new_connection sockfd s
step (closes n) s = remove_connection_in_loop n s

unfoldable pub run : List Event → TcpServer → Option TcpServer
unfolding step
run [] s = some s
run (e ∷ es) s = elim (step e s) [ none ↦ none | some s' ↦ run es s' ]
