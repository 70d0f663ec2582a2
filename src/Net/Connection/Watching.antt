-- ===== src/Net/Connection/Watching.antt =====
-- The socket's entry in the poller and the close callback, over every run of events.
use tzzero_http.Net.Connection.Sending.{send_in_loop-cases}
use tzzero_http.Prelude.{
  ℕ, zero, suc, ◌≡◌, arith, inl, inr, Bool, true, false, Option, none, some, subst, List, [], ◌∷◌,
  Bytes, if◌then◌else◌, Bool-cases,
}
use tzzero_http.Buffer.{SysResult, done, failed}
use tzzero_http.Net.Connection.{
  Connection, State, disconnected, Interest, Task, send_task, shutdown_task, force_close_task,
  write_complete_task, high_water_task, is_open, connection_established, connection_destroyed,
  handle_close, handle_error, handle_read, handle_write, send, send_in_loop, is_connected, shutdown,
  force_close, force_close_in_loop, run_task, written, keep_rest, try_write,
}
use tzzero_http.Net.Connection.Events.{
  Event, established, destroyed, errs, reads, writes, sends, shuts, closes, runs_task, step, run,
  next_task, run_induction, some_injective,
}

abbrev pub has_entry : Option Interest → Bool
has_entry none = false
has_entry (some i) = true

abbrev pub is_closed : State → Bool
is_closed disconnected = true
is_closed _ = false

-- The poller has an entry for the socket exactly while the connection is open, and the close
-- callback has been called once if the connection is closed, and not before.
pub record IsConsistent (c : Connection) : Type 0 where
  pub watched : has_entry c.interest ≡ is_open c.state
  pub notified : c.close_calls ≡ (if is_closed c.state then 1 else 0)

module _ (c c' : Connection) (v : IsConsistent c) where
  connection_established-IsConsistent : connection_established c ≡ some c' → IsConsistent c'
  unfolding connection_established
  connection_established-IsConsistent e = ground arith

  connection_destroyed-IsConsistent : connection_destroyed c ≡ some c' → IsConsistent c'
  unfolding connection_destroyed
  connection_destroyed-IsConsistent e = ground arith

  handle_close-IsConsistent : handle_close c ≡ some c' → IsConsistent c'
  unfolding handle_close
  handle_close-IsConsistent e = ground arith

  shutdown-IsConsistent : (in_loop : Bool) → IsConsistent (shutdown in_loop c)
  unfolding shutdown
  shutdown-IsConsistent in_loop = ground arith

  force_close-IsConsistent : (in_loop : Bool) → force_close in_loop c ≡ some c' → IsConsistent c'
  unfolding force_close
  force_close-IsConsistent in_loop e = ground arith

  force_close_in_loop-IsConsistent : force_close_in_loop c ≡ some c' → IsConsistent c'
  unfolding force_close_in_loop
  force_close_in_loop-IsConsistent e = ground arith

-- Sending and writing leave the state, whether there is an entry, and the count.
pub record Same (c c' : Connection) : Type 0 where
  pub same_state : c'.state ≡ c.state
  pub same_entry : has_entry c'.interest ≡ has_entry c.interest
  pub same_calls : c'.close_calls ≡ c.close_calls

Same-IsConsistent : {c c' : Connection} → Same c c' → IsConsistent c → IsConsistent c'
Same-IsConsistent s v = ground arith

Same-trans : {a b c : Connection} → Same a b → Same b c → Same a c
Same-trans s t = ground arith

try_write-Same :
    (bytes : Bytes) (result : SysResult ℕ) (c : Connection)
    → Same c (try_write bytes result c).after
unfolding try_write
try_write-Same bytes (done n) c = ground arith
try_write-Same bytes (failed errno) c = ground arith

keep_rest-Same : (rest : Bytes) (c c' : Connection) → keep_rest rest c ≡ some c' → Same c c'
unfolding keep_rest
keep_rest-Same rest c c' e = ground arith

pub send_in_loop-Same :
    (bytes : Bytes) (result : SysResult ℕ) (c c' : Connection)
    → send_in_loop bytes result c ≡ some c'
    → Same c c'
send_in_loop-Same bytes result c c' e = elim (send_in_loop-cases bytes result c c' e) [
  | inl (fault, same) ↦ rw same (try_write-Same bytes result c)
  | inr (inl (fault, all, same)) ↦ rw same (try_write-Same bytes result c)
  | inr (inr (fault, kept)) ↦
      Same-trans (try_write-Same bytes result c)
        (keep_rest-Same _ (try_write bytes result c).after c' kept)
]

written-Same : (n : ℕ) (c c' : Connection) → written n c ≡ some c' → Same c c'
unfolding written
written-Same zero c c' e = ground arith
written-Same (suc n) c c' e = ground arith

pub handle_write-Same :
    (result : SysResult ℕ) (c c' : Connection) → handle_write result c ≡ some c' → Same c c'
unfolding handle_write
handle_write-Same (done n) c c' e = ground (arith, written-Same n c c')
handle_write-Same (failed errno) c c' e = ground arith

run_task-IsConsistent :
    (t : Task) (result : SysResult ℕ) (c c' : Connection)
    → IsConsistent c
    → run_task t result c ≡ some c'
    → IsConsistent c'
unfolding run_task
run_task-IsConsistent (send_task bytes) result c c' v e =
    Same-IsConsistent (send_in_loop-Same bytes result c c' e) v
run_task-IsConsistent shutdown_task result c c' v e = ground arith
run_task-IsConsistent force_close_task result c c' v e = force_close_in_loop-IsConsistent c c' v e
run_task-IsConsistent write_complete_task result c c' v e = ground arith
run_task-IsConsistent (high_water_task n) result c c' v e = ground arith

reads-IsConsistent :
    (result : SysResult Bytes) (c c' : Connection)
    → IsConsistent c
    → handle_read (λ x. some x) result c ≡ some c'
    → IsConsistent c'
unfolding handle_read handle_error
reads-IsConsistent (done []) c c' v h = handle_close-IsConsistent c c' v h
reads-IsConsistent (done (x ∷ bytes)) c c' v h = ground arith
reads-IsConsistent (failed errno) c c' v h = handle_close-IsConsistent c c' v h

sends-IsConsistent :
    (in_loop : Bool) (bytes : Bytes) (result : SysResult ℕ) (c c' : Connection)
    → IsConsistent c
    → send in_loop bytes result c ≡ some c'
    → IsConsistent c'
unfolding send
sends-IsConsistent true bytes result c c' v h = elim (Bool-cases (is_connected c.state)) [
  | inl e ↦ Same-IsConsistent (send_in_loop-Same bytes result c c' (rw e at h)) v
  | inr e ↦ ground arith
]
sends-IsConsistent false bytes result c c' v h = ground arith

next_task-IsConsistent :
    (ts : List Task) (result : SysResult ℕ) (c c' : Connection)
    → IsConsistent c
    → next_task ts result c ≡ some c'
    → IsConsistent c'
unfolding next_task
next_task-IsConsistent [] result c c' v h = ground arith
next_task-IsConsistent (t ∷ ts) result c c' v h =
    run_task-IsConsistent t result (record c { queued = ts }) c' (ground arith) h

pub step-IsConsistent :
    (e : Event) (c c' : Connection) → IsConsistent c → step e c ≡ some c' → IsConsistent c'
unfolding step handle_error
step-IsConsistent established c c' v h = connection_established-IsConsistent c c' v h
step-IsConsistent destroyed c c' v h = connection_destroyed-IsConsistent c c' v h
step-IsConsistent errs c c' v h = handle_close-IsConsistent c c' v h
step-IsConsistent (reads result) c c' v h = reads-IsConsistent result c c' v h
step-IsConsistent (writes result) c c' v h = Same-IsConsistent (handle_write-Same result c c' h) v
step-IsConsistent (sends in_loop bytes result) c c' v h =
    sends-IsConsistent in_loop bytes result c c' v h
step-IsConsistent (shuts in_loop) c c' v h =
    subst IsConsistent (some_injective h) (shutdown-IsConsistent c c' v in_loop)
step-IsConsistent (closes in_loop) c c' v h = force_close-IsConsistent c c' v in_loop h
step-IsConsistent (runs_task result) c c' v h = next_task-IsConsistent c.queued result c c' v h

-- In every run from a consistent connection, such as a new one, the poller has an entry for the
-- socket exactly while the connection is open, and the close callback is called once when it
-- closes, and never again.
pub run-IsConsistent :
    (es : List Event) (c c' : Connection) → IsConsistent c → run es c ≡ some c' → IsConsistent c'
run-IsConsistent = run_induction IsConsistent step-IsConsistent
