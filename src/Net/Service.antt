-- ===== src/Net/Service.antt =====
-- A server together with its connections: src/net/tcp_server.cpp calls src/net/tcp_connection.cpp in
-- the loops of the connections, and a connection's close callback puts `remove_connection_in_loop`
-- into the server's loop. Each step is one call in one of the loops, and the steps come in any order.
pub mod Objects
pub mod Removals
pub mod Destructor
mod Tests
use tzzero_http.Prelude.{
  ℕ, ◌+◌, Bool, true, false, ◌&&◌, ◌==◌, ltb, if◌then◌else◌, Option, none, some, List, [], ◌∷◌,
  ◌++◌, Bytes, ◌=?◌,
}
use tzzero_http.Net.Connection.{
  Connection, make as make_connection, connection_destroyed, destructs,
}
use tzzero_http.Net.Connection.Events.{Event as ConnectionEvent, step as step_connection}
use tzzero_http.Net.TcpServer.{
  Conn, TcpServer, conn_name, find, start, stop, new_connection, remove_connection_in_loop,
}

-- `objects` has every connection that was made, by name, and `removals` the names of those whose close
-- callback was called and that the server has still to remove.
pub record Service : Type 0 where
  pub server : TcpServer
  pub objects : List (Bytes × Connection)
  pub removals : List Bytes

unfoldable pub make : TcpServer → Service
make server = record { server = server; objects = []; removals = [] }

unfoldable pub find_object : Bytes → List (Bytes × Connection) → Option Connection
find_object n [] = none
find_object n ((m, c) ∷ os) = if m =? n then some c else find_object n os

unfoldable pub set_object :
    Bytes → Connection → List (Bytes × Connection) → List (Bytes × Connection)
set_object n c [] = []
set_object n c ((m, d) ∷ os) = if m =? n then (m, c) ∷ os else (m, d) ∷ set_object n c os

-- `new_connection` with the connection that it makes; a server sets no callback for the high water
-- mark.
unfoldable pub arrive : Bool → ℕ → Service → Option Service
arrive has_write_complete sockfd v = elim (new_connection sockfd v.server) [
  | none ↦ none
  | some server ↦ some (record v {
    server = server;
    objects =
        (
          conn_name v.server.name v.server.ip_port v.server.next_conn_id,
          make_connection has_write_complete false,
        )
        ∷ v.objects;
  })
]

-- A connection has become another one; if it has called its close callback, the removal is due.
unfoldable pub changed : Bytes → Connection → Connection → Service → Service
unfolding set_object
changed n c c' v = record v {
  objects = set_object n c' v.objects;
  removals = if ltb c.close_calls c'.close_calls then v.removals ++ n ∷ [] else v.removals;
}

unfoldable pub happen : Bytes → ConnectionEvent → Service → Option Service
unfolding find_object changed
happen n e v = elim (find_object n v.objects) [
  | none ↦ none
  | some c ↦ elim (step_connection e c) [ none ↦ none | some c' ↦ some (changed n c c' v) ]
]

-- The next removal in the server's loop; `none` if its assertion fails.
unfoldable pub remove_next : List Bytes → Service → Option Service
remove_next [] v = some v
remove_next (n ∷ ns) v = elim (remove_connection_in_loop n v.server) [
  | none ↦ none
  | some server ↦ some (record v { server = server; removals = ns })
]

unfoldable pub with_server : Option TcpServer → Service → Option Service
with_server none v = none
with_server (some server) v = some (record v { server = server })

pub data Event : Type 0 where
  starts : (ℕ → ℕ) → Bool → Event
  stops removes : Event
  arrives : Bool → ℕ → Event
  happens : Bytes → ConnectionEvent → Event

unfoldable pub step : Event → Service → Option Service
unfolding arrive happen remove_next with_server
step (starts loop_of bound) v = with_server (start loop_of bound v.server) v
step stops v = with_server (stop v.server) v
step removes v = remove_next v.removals v
step (arrives has_write_complete sockfd) v = arrive has_write_complete sockfd v
step (happens n e) v = happen n e v

unfoldable pub run : List Event → Service → Option Service
unfolding step
run [] v = some v
run (e ∷ es) v = elim (step e v) [ none ↦ none | some w ↦ run es w ]

-- How the destructor of a server ends: with all done; with the loop over the map on an element that
-- was erased, where its next step is undefined; or with the end of the process, by an assertion or by
-- an exception.
pub data Destruction : Type 0 where
  completed iterator_invalid : Service → Destruction
  aborts : Destruction

-- The close callback, if it was called, where the server's loop is the connection's: the removal is
-- run at once.
unfoldable pub run_close_callback : Bool → Bytes → TcpServer → Option TcpServer
run_close_callback called n s = if called then remove_connection_in_loop n s else some s

-- The loop of the server's destructor, where the server's loop is the only one: `connection_destroyed`
-- is called at once. The loop can go on from an element while the map has it.
unfoldable pub destroy_each : List Conn → Service → Destruction
unfolding find_object set_object run_close_callback
destroy_each [] v = completed v
destroy_each (k ∷ ks) v = elim (find_object k.name v.objects) [
  | none ↦ aborts
  | some c ↦ elim (connection_destroyed c) [
    | none ↦ aborts
    | some c' ↦ elim (run_close_callback (ltb c.close_calls c'.close_calls) k.name v.server) [
      | none ↦ aborts
      | some server ↦ elim (find k.name server.connections) [
        | none ↦
            iterator_invalid
              (record v { server = server; objects = set_object k.name c' v.objects })
        | some here ↦
            destroy_each ks (record v { server = server; objects = set_object k.name c' v.objects })
      ]
    ]
  ]
]

-- The map gives up its connections: the assertion of each one's destructor.
unfoldable pub give_up : List Conn → List (Bytes × Connection) → Bool
unfolding find_object
give_up [] os = true
give_up (k ∷ ks) os =
    (elim (find_object k.name os) [ none ↦ false | some c ↦ destructs c ]) && give_up ks os

-- The map gives up its connections behind the loop.
unfoldable pub give_up_all : Destruction → Destruction
unfolding give_up
give_up_all (completed w) = if give_up w.server.connections w.objects then completed w else aborts
give_up_all (iterator_invalid w) = iterator_invalid w
give_up_all aborts = aborts

unfoldable pub destruct_alone : Service → Destruction
unfolding destroy_each give_up_all
destruct_alone v = give_up_all (destroy_each v.server.connections v)
