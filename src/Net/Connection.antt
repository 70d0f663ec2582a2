-- ===== src/Net/Connection.antt =====
-- include/tzzero/net/tcp_connection.h and src/net/tcp_connection.cpp: one connection, run by its
-- loop's thread. The kernel's answers to `readv` and `write` are arguments. `none` is the end of
-- the process: an assertion that fails, or an exception of the poller, which nothing catches.
-- The addresses, the name and the two socket options are left out.
pub mod Events
pub mod Sending
pub mod Delivery
pub mod Watching
pub mod Stalled
pub mod Hangup
pub mod Closed
mod Tests
use tzzero_http.Prelude.{
  ℕ, zero, suc, ◌+◌, ◌-◌, ◌*◌, Bool, true, false, not, ◌&&◌, ◌||◌, ltb, leb, ◌==◌, if◌then◌else◌,
  Option, none, some, List, [], ◌∷◌, ◌++◌, Bytes, length, take, drop,
}
use tzzero_http.Buffer.{
  Buffer, SysResult, done, failed, append, readable_bytes, read_fd, write_fd, retrieve_all,
  to_string, make as make_buffer, initial_size,
}

pub data State : Type 0 where
  connecting connected disconnecting disconnected : State

-- What the poller watches the socket for.
pub record Interest : Type 0 where
  pub read : Bool
  pub write : Bool

-- A functor in the loop's queue.
pub data Task : Type 0 where
  send_task : Bytes → Task
  shutdown_task force_close_task write_complete_task : Task
  high_water_task : ℕ → Task

-- `interest` is the socket's entry in the poller, `queued` what this connection put into the
-- loop's queue, `sent` the bytes that the kernel took, `write_shut` tells of `::shutdown`, and
-- `close_calls` counts the calls of the close callback.
pub record Connection : Type 0 where
  pub state : State
  pub input : Buffer
  pub output : Buffer
  pub high_water_mark : ℕ
  pub has_write_complete : Bool
  pub has_high_water : Bool
  pub interest : Option Interest
  pub queued : List Task
  pub sent : Bytes
  pub write_shut : Bool
  pub close_calls : ℕ

-- The constructor, with the callbacks that are set. The high water mark is 64 MB.
unfoldable pub make : Bool → Bool → Connection
make has_write_complete has_high_water = record {
  state = connecting;
  input = make_buffer initial_size;
  output = make_buffer initial_size;
  high_water_mark = 67108864;
  has_write_complete = has_write_complete;
  has_high_water = has_high_water;
  interest = none;
  queued = [];
  sent = [];
  write_shut = false;
  close_calls = 0;
}

abbrev pub queue : Connection → Task → Connection
queue c t = record c { queued = c.queued ++ t ∷ [] }

infixl 5 ◌>>=◌
abbrev pub ◌>>=◌ {ℓ κ} : {A : Type ℓ} {B : Type κ} → Option A → (A → Option B) → Option B
none >>= f = none
some a >>= f = f a

abbrev pub is_open : State → Bool
is_open connected = true
is_open disconnecting = true
is_open _ = false

-- The poller's `add_fd`, `modify_fd` and `remove_fd`: `epoll_ctl` fails, and they throw, if the
-- socket is there already, or is not there.
unfoldable pub add_fd : Interest → Connection → Option Connection
add_fd i c = elim c.interest [ none ↦ some (record c { interest = some i }) | some _ ↦ none ]

unfoldable pub modify_fd : Interest → Connection → Option Connection
modify_fd i c = elim c.interest [ none ↦ none | some _ ↦ some (record c { interest = some i }) ]

unfoldable pub remove_fd : Connection → Option Connection
remove_fd c = elim c.interest [ none ↦ none | some _ ↦ some (record c { interest = none }) ]

abbrev pub read_only : Interest
read_only = record { read = true; write = false }

abbrev pub read_write : Interest
read_write = record { read = true; write = true }

-- The close callback is set by the server.
abbrev call_close : Connection → Connection
call_close c = record c { close_calls = suc c.close_calls }

abbrev is_connecting : State → Bool
is_connecting connecting = true
is_connecting _ = false

abbrev pub is_connected : State → Bool
is_connected connected = true
is_connected _ = false

unfoldable pub connection_established : Connection → Option Connection
unfolding add_fd
connection_established c =
    if is_connecting c.state then add_fd read_only (record c { state = connected }) else none

unfoldable pub connection_destroyed : Connection → Option Connection
unfolding remove_fd
connection_destroyed c =
    if is_connected c.state
    then (do c' ← remove_fd (record c { state = disconnected }); some (call_close c'))
    else some c

unfoldable pub handle_close : Connection → Option Connection
unfolding remove_fd
handle_close c =
    if is_open c.state
    then (do c' ← remove_fd (record c { state = disconnected }); some (call_close c'))
    else none

-- The error number is not fetched, so nothing is logged.
unfoldable pub handle_error : Connection → Option Connection
unfolding handle_close
handle_error c = handle_close c

unfoldable pub shutdown_in_loop : Connection → Connection
shutdown_in_loop c = if readable_bytes c.output == 0 then record c { write_shut = true } else c

unfoldable pub force_close_in_loop : Connection → Option Connection
unfolding handle_close
force_close_in_loop c = if is_open c.state then handle_close c else some c

-- `in_loop` tells whether the caller is the loop's thread.
unfoldable pub shutdown : Bool → Connection → Connection
unfolding shutdown_in_loop
shutdown in_loop c =
    if is_connected c.state
    then (if in_loop
        then shutdown_in_loop (record c { state = disconnecting })
        else queue (record c { state = disconnecting }) shutdown_task)
    else c

unfoldable pub force_close : Bool → Connection → Option Connection
unfolding force_close_in_loop
force_close in_loop c =
    if is_open c.state
    then (if in_loop
        then force_close_in_loop (record c { state = disconnecting })
        else some (queue (record c { state = disconnecting }) force_close_task))
    else some c

unfoldable pub set_high_water_mark : Bool → ℕ → Connection → Connection
set_high_water_mark present mark c = record c { has_high_water = present; high_water_mark = mark }

abbrev pub e_would_block : ℕ
e_would_block = 11

abbrev pub e_pipe : ℕ
e_pipe = 32

abbrev pub e_conn_reset : ℕ
e_conn_reset = 104

-- The first half of `send_in_loop`: how many bytes were written, and whether the peer is gone.
pub record Direct : Type 0 where
  pub wrote : ℕ
  pub fault : Bool
  pub after : Connection

unfoldable pub direct_write : Bytes → SysResult ℕ → Connection → Direct
direct_write bytes (done n) c =
    let c' = record c { sent = c.sent ++ take n bytes } in
    record {
      wrote = n;
      fault = false;
      after =
          if n == length bytes && c.has_write_complete then queue c' write_complete_task else c';
    }
direct_write bytes (failed errno) c = record {
  wrote = 0;
  fault = errno == e_pipe || errno == e_conn_reset;
  after = c;
}

unfoldable pub try_write : Bytes → SysResult ℕ → Connection → Direct
unfolding direct_write
try_write bytes result c =
    if is_connected c.state && readable_bytes c.output == 0
    then direct_write bytes result c
    else record { wrote = 0; fault = false; after = c }

-- The second half: what is left goes to the output buffer.
unfoldable pub warn_high_water : ℕ → Connection → Connection
warn_high_water remaining c =
    let old_len = readable_bytes c.output in
    if leb c.high_water_mark (old_len + remaining)
      && (ltb old_len c.high_water_mark && c.has_high_water)
    then queue c (high_water_task (old_len + remaining))
    else c

unfoldable pub keep_rest : Bytes → Connection → Option Connection
unfolding warn_high_water modify_fd
keep_rest rest c =
    let c1 = warn_high_water (length rest) c in
    modify_fd read_write (record c1 { output = append c1.output rest })

-- The assertion `remaining <= len` fails if the kernel wrote more than it was given.
unfoldable pub send_in_loop : Bytes → SysResult ℕ → Connection → Option Connection
unfolding try_write keep_rest
send_in_loop bytes result c =
    let d = try_write bytes result c in
    if ltb (length bytes) d.wrote
    then none
    else if not d.fault && ltb d.wrote (length bytes)
    then keep_rest (drop d.wrote bytes) d.after
    else some d.after

-- `send` of a text; from another thread a copy of it is queued.
unfoldable pub send : Bool → Bytes → SysResult ℕ → Connection → Option Connection
send in_loop bytes result c =
    if is_connected c.state
    then (if in_loop then send_in_loop bytes result c else some (queue c (send_task bytes)))
    else some c

-- `send` of a buffer, by the loop's thread, where `buffer` is another one than the connection's own.
unfoldable pub send_buffer : Buffer → SysResult ℕ → Connection → Option (Connection × Buffer)
unfolding send_in_loop
send_buffer buffer result c =
    if is_connected c.state
    then elim (send_in_loop (to_string buffer) result c) [
      | none ↦ none
      | some c' ↦ some (c', retrieve_all buffer)
    ]
    else some (c, buffer)

abbrev pub is_disconnected : State → Bool
is_disconnected disconnected = true
is_disconnected _ = false

-- Whether the assertion of the destructor holds.
unfoldable pub destructs : Connection → Bool
destructs c = is_disconnected c.state

-- `callback` is the message callback, which may call the methods of the connection.
unfoldable pub handle_read :
    (Connection → Option Connection) → SysResult Bytes → Connection → Option Connection
unfolding handle_close handle_error
handle_read callback (done []) c = handle_close c
handle_read callback (done (x ∷ bytes)) c =
    callback (record c { input = read_fd c.input (done (x ∷ bytes)) })
handle_read callback (failed errno) c = handle_error c

abbrev pub is_disconnecting : State → Bool
is_disconnecting disconnecting = true
is_disconnecting _ = false

unfoldable pub after_drain : Connection → Connection
unfolding shutdown_in_loop
after_drain c =
    let c2 = if c.has_write_complete then queue c write_complete_task else c in
    if is_disconnecting c2.state then shutdown_in_loop c2 else c2

-- All is written: the socket is no longer watched for writing.
unfoldable pub drained : Connection → Option Connection
unfolding modify_fd after_drain
drained c = do c1 ← modify_fd read_only c; some (after_drain c1)

unfoldable pub written : ℕ → Connection → Option Connection
unfolding drained
written zero c = some c
written (suc n) c =
    let c1 = record c {
      sent = c.sent ++ take (suc n) (to_string c.output);
      output = write_fd c.output (done (suc n));
    } in
    if readable_bytes c1.output == 0 then drained c1 else some c1

unfoldable pub handle_write : SysResult ℕ → Connection → Option Connection
unfolding written
handle_write (done n) c = if is_connected c.state then written n c else some c
handle_write (failed errno) c = some c

-- The events of one round of the poller, in the order in which the callback looks at them.
unfoldable pub on_events :
    (Connection → Option Connection)
    → Bool
    → Bool
    → Bool
    → SysResult Bytes
    → SysResult ℕ
    → Connection
    → Option Connection
on_events callback readable writable error got wrote c = do
  c1 ← if readable then handle_read callback got c else some c
  c2 ← if writable then handle_write wrote c1 else some c1
  if error then handle_error c2 else some c2

-- A functor is run; the two callbacks of the user are not modelled.
unfoldable pub run_task : Task → SysResult ℕ → Connection → Option Connection
unfolding send_in_loop shutdown_in_loop force_close_in_loop
run_task (send_task bytes) result c = send_in_loop bytes result c
run_task shutdown_task result c = some (shutdown_in_loop c)
run_task force_close_task result c = force_close_in_loop c
run_task write_complete_task result c = some c
run_task (high_water_task n) result c = some c
