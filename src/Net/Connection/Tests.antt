-- ===== src/Net/Connection/Tests.antt =====
-- The methods of `TcpConnection` (src/net/tcp_connection.cpp) on small connections.
use tzzero_http.Prelude.{
  ◌+◌, ◌<◌, ◌≡◌, ◌⊎◌, refl, arith, true, false, Option, none, some, List, [], ◌∷◌, ◌++◌, Bytes,
  codes, length, add_size, sub_size,
}
use tzzero_http.Buffer
use tzzero_http.Buffer.{Buffer, SysResult, done, failed, append, make, readable_bytes}
use tzzero_http.Buffer.Bounds.{IsValid, make-IsValid, max_size}
use tzzero_http.Buffer.Samples.{holding, holding-IsValid}
use tzzero_http.Net.Connection.{
  Connection, connecting, connected, disconnecting, read_only, read_write, send_in_loop,
  handle_write, on_events, connection_established, send, handle_read,
}
use tzzero_http.Net.Connection.Sending.{stream, gives_up}
use tzzero_http.Net.Connection.Delivery.{send_in_loop_lem, handle_write_lem}
use tzzero_http.Net.Connection.Events.{Event, established, reads, writes, sends, step, run}
use tzzero_http.Net.Connection.Hangup.{on_events_hangup}
use tzzero_http.Net.Connection.Stalled.{quiet, IsStalled}
use tzzero_http.Net.Connection.Watching.{IsConsistent, run-IsConsistent}

-- A new connection.
abbrev new_connection : Connection
new_connection = record {
  state = connecting;
  input = make 4;
  output = make 4;
  high_water_mark = 64;
  has_write_complete = true;
  has_high_water = true;
  interest = none;
  queued = [];
  sent = [];
  write_shut = false;
  close_calls = 0;
}

-- An open connection with these bytes in its output buffer.
abbrev with_output : Bytes → Connection
with_output bytes = record new_connection {
  state = connected;
  output = holding bytes;
  interest = some read_only;
}

abbrev idle : Connection
idle = record (with_output []) { output = make 4 }

abbrev hello : Bytes
hello = codes "hello"

abbrev half_sent : Connection
half_sent = record idle {
  output = holding (codes "llo");
  interest = some read_write;
  sent = codes "he";
}

idle-IsValid : IsValid idle.output
idle-IsValid = make-IsValid 4 (omega arith)

half-runs : send_in_loop hello (done 2) idle ≡ some half_sent
unfolding send_in_loop readable_bytes sub_size make
half-runs = refl

room : idle.output.write_index + length hello < max_size
unfolding make
room = omega arith

send_in_loop_lem_example :
    IsValid half_sent.output
    × ((stream half_sent ≡ stream idle ++ hello)
        ⊎ ((half_sent ≡ idle) × (gives_up (done 2) ≡ true)))
send_in_loop_lem_example =
    send_in_loop_lem hello (done 2) idle half_sent idle-IsValid room (omega arith) half-runs

unread : readable_bytes (holding hello) ≡ 5
unfolding make append readable_bytes sub_size add_size Buffer.ensure_writable_bytes
    Buffer.writable_bytes Buffer.make_space Buffer.prependable_bytes
unread = refl

handle_write_lem_example :
    (c' : Connection) × (handle_write (done 2) (with_output hello) ≡ some c')
    × (stream c' ≡ stream (with_output hello))
    × IsValid c'.output
handle_write_lem_example =
    handle_write_lem (done 2) (with_output hello) read_only (holding-IsValid hello (omega arith))
      (omega (arith, unread)) refl

abbrev result_of : Option Connection → Connection
result_of none = new_connection
result_of (some c) = c

-- The connection is established, half of a message is sent, the other end closes.
abbrev life : List Event
life = established ∷ sends true hello (done 2) ∷ reads (done []) ∷ []

abbrev closed : Connection
closed = result_of (run life new_connection)

closed-runs : (run life new_connection ≡ some closed) × (closed.close_calls ≡ 1)
unfolding run step connection_established send readable_bytes sub_size make handle_read
closed-runs = (refl, refl)

run-IsConsistent_example : IsConsistent closed
run-IsConsistent_example = run-IsConsistent life new_connection closed (ground arith) closed-runs.0

on_events_hangup_example : on_events (λ c. some c) true true true (done []) (done 0) idle ≡ none
on_events_hangup_example = on_events_hangup (λ c. some c) true (done 0) idle

quiet-queue : quiet (with_output hello).queued ≡ true
unfolding quiet
quiet-queue = refl

abbrev stalled : Connection
stalled = record (with_output hello) { state = disconnecting }

abbrev later : List Event
later = writes (done 5) ∷ sends true hello (done 5) ∷ []

stalled-IsStalled : IsStalled [] stalled
unfolding quiet
stalled-IsStalled = ground (arith, unread)

later-runs : run later stalled ≡ some (result_of (run later stalled))
unfolding run step handle_write send
later-runs = refl
