-- ===== src/Net/TcpServer/Tests.antt =====
-- A server at work: it starts, two connections come, and the first one closes.
use tzzero_http.Prelude.{
  ℕ, if◌then◌else◌, ◌==◌, ◌++◌, inl, none, ◌+◌, ◌≤◌, ◌≡◌, refl, true, some, List, [], ◌∷◌, Bytes,
  length, codes, arith, ◌=?◌,
}
use tzzero_http.Http.Numbers.{decimal}
use tzzero_http.Net.Acceptor.{
  make as make_acceptor, set_new_connection_callback, listen, disable_listening,
}
use tzzero_http.Net.EventLoopThreadPool.{make as make_pool, start as start_pool, get_next_loop}
use tzzero_http.Net.TcpServer.{
  handle_read, Conn, establishes, shuts, destroys, TcpServer, make, conn_name, Event, starts, stops,
  arrives, closes, run,
}
use tzzero_http.Net.TcpServer.Lifetimes.{IsBalanced, make-IsBalanced, run-IsBalanced}
use tzzero_http.Net.Acceptor.{Answer, accepted, failed, eagain, max_accept}
use tzzero_http.Net.Acceptor.Accepting.{descriptors, arrivals}
use tzzero_http.Net.TcpServer.Arrivals.{IsReady, sockets, handle_read-IsReady}

abbrev created : TcpServer
created = make (some 3) 0 (codes "0.0.0.0") 80 (codes "web")

abbrev first_name : Bytes
first_name = codes "web-0.0.0.0:80#1"

abbrev second_name : Bytes
second_name = codes "web-0.0.0.0:80#2"

first_name-conn_name : conn_name created.name created.ip_port 1 ≡ first_name
unfolding conn_name make decimal
first_name-conn_name = refl

abbrev first : Conn
first = record { name = first_name; io_loop = 0; socket = 7 }

abbrev second : Conn
second = record { name = second_name; io_loop = 0; socket = 8 }

abbrev events : List Event
events = starts (λ i. i + 1) true ∷ arrives 7 ∷ arrives 8 ∷ closes first_name ∷ stops ∷ []

abbrev after : TcpServer
after = record created {
  thread_pool = record created.thread_pool { started = true };
  started = true;
  next_conn_id = 3;
  connections = second ∷ [];
  posts = establishes first ∷ establishes second ∷ destroys first ∷ shuts second ∷ [];
}

events-run : run events created ≡ some after
unfolding run make start_pool make_pool set_new_connection_callback make_acceptor listen
    get_next_loop ◌=?◌ decimal disable_listening
events-run = refl

created-length : length created.ip_port ≤ 51
unfolding make decimal
created-length = omega arith

created-IsBalanced : IsBalanced created
created-IsBalanced = make-IsBalanced (some 3) 0 80 (codes "0.0.0.0") (codes "web") created-length

after-IsBalanced : IsBalanced after
after-IsBalanced = run-IsBalanced events created after created-IsBalanced events-run

run-IsBalanced_example : IsBalanced after
run-IsBalanced_example = run-IsBalanced events created after created-IsBalanced events-run

abbrev two_then_none : ℕ → Answer
two_then_none i =
    if i == 0 then accepted 9 [] else (if i == 1 then accepted 10 [] else failed eagain)

after-IsReady : IsReady after.thread_pool
unfolding make make_pool
after-IsReady = record { started = refl; within = inl refl }

after-has_callback : after.acceptor.has_callback ≡ true
unfolding make set_new_connection_callback
after-has_callback = refl

handle_read-IsReady_example :
    (s' : TcpServer) × (handle_read two_then_none none none after ≡ some s')
    × IsReady s'.thread_pool
    × (sockets s'.posts ≡ sockets after.posts ++ descriptors (arrivals two_then_none max_accept 0))
handle_read-IsReady_example =
    handle_read-IsReady two_then_none none none after after-IsReady after-has_callback (omega arith)
