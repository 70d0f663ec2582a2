-- ===== src/Net/Connection/Stalled.antt =====
-- A connection that is shut down while bytes wait in its output buffer.
use tzzero_http.Prelude.{
  ℕ, ◌≡◌, ◌≢◌, arith, Bool, true, false, some, subst, List, [], ◌∷◌, ◌++◌, Bytes, ◌&&◌,
}
use tzzero_http.Buffer.{SysResult, done, failed, readable_bytes}
use tzzero_http.Net.Connection.{
  Connection, State, connected, disconnecting, disconnected, Task, send_task, shutdown_task,
  force_close_task, write_complete_task, high_water_task, connection_established,
  connection_destroyed, handle_close, handle_error, handle_read, handle_write, send, shutdown,
  force_close, force_close_in_loop, run_task, shutdown_in_loop,
}
use tzzero_http.Net.Connection.Events.{
  Event, established, destroyed, errs, reads, writes, sends, shuts, closes, runs_task, step, run,
  next_task, run_induction, some_injective,
}

abbrev is_closing : State → Bool
is_closing disconnecting = true
is_closing disconnected = true
is_closing _ = false

abbrev sends_nothing : Task → Bool
sends_nothing (send_task bytes) = false
sends_nothing _ = true

-- No task of the queue sends a message.
unfoldable pub quiet : List Task → Bool
quiet [] = true
quiet (t ∷ ts) = sends_nothing t && quiet ts

pub quiet-append :
    (ts : List Task) (t : Task) → quiet (ts ++ t ∷ []) ≡ (quiet ts && sends_nothing t)
unfolding quiet
quiet-append [] t = ground arith
quiet-append (u ∷ ts) t = ground (arith, quiet-append ts t)

-- The connection is being shut down or is closed, bytes wait in the output buffer, the sending side
-- is not shut, no other thread's message waits in the loop's queue, and the kernel took `sent`.
pub record IsStalled (sent : Bytes) (c : Connection) : Type 0 where
  pub closing : is_closing c.state ≡ true
  pub waiting : readable_bytes c.output ≢ 0
  pub open_side : c.write_shut ≡ false
  pub no_messages : quiet c.queued ≡ true
  pub sent_before : c.sent ≡ sent

module _ (sent : Bytes) (c c' : Connection) (v : IsStalled sent c) where
  destroyed-IsStalled : connection_destroyed c ≡ some c' → IsStalled sent c'
  unfolding connection_destroyed
  destroyed-IsStalled e = ground arith

  established-IsStalled : connection_established c ≡ some c' → IsStalled sent c'
  unfolding connection_established
  established-IsStalled e = ground arith

  close-IsStalled : handle_close c ≡ some c' → IsStalled sent c'
  unfolding handle_close
  close-IsStalled e = ground arith

  sends-IsStalled :
      (in_loop : Bool) (bytes : Bytes) (result : SysResult ℕ)
      → send in_loop bytes result c ≡ some c'
      → IsStalled sent c'
  unfolding send
  sends-IsStalled in_loop bytes result e = ground arith

  shuts-IsStalled : (in_loop : Bool) → IsStalled sent (shutdown in_loop c)
  unfolding shutdown
  shuts-IsStalled in_loop = ground arith

  closes-IsStalled : (in_loop : Bool) → force_close in_loop c ≡ some c' → IsStalled sent c'
  unfolding force_close
  closes-IsStalled in_loop e = ground (arith, quiet-append c.queued force_close_task)

  close_in_loop-IsStalled : force_close_in_loop c ≡ some c' → IsStalled sent c'
  unfolding force_close_in_loop
  close_in_loop-IsStalled e = ground arith

  shut_in_loop-IsStalled : IsStalled sent (shutdown_in_loop c)
  unfolding shutdown_in_loop
  shut_in_loop-IsStalled = ground arith

  reads-IsStalled :
      (result : SysResult Bytes) → handle_read (λ x. some x) result c ≡ some c' → IsStalled sent c'
  unfolding handle_read handle_error
  reads-IsStalled (done []) e = close-IsStalled e
  reads-IsStalled (done (x ∷ bytes)) e = ground arith
  reads-IsStalled (failed errno) e = close-IsStalled e

  writes-IsStalled : (result : SysResult ℕ) → handle_write result c ≡ some c' → IsStalled sent c'
  unfolding handle_write
  writes-IsStalled (done n) e = ground arith
  writes-IsStalled (failed errno) e = ground arith

run_task-IsStalled :
    (sent : Bytes) (t : Task) (result : SysResult ℕ) (c c' : Connection)
    → IsStalled sent c
    → sends_nothing t ≡ true
    → run_task t result c ≡ some c'
    → IsStalled sent c'
unfolding run_task
run_task-IsStalled sent (send_task bytes) result c c' v q e = absurd (cc)
run_task-IsStalled sent shutdown_task result c c' v q e =
    subst (IsStalled sent) (some_injective e) (shut_in_loop-IsStalled sent c c' v)
run_task-IsStalled sent force_close_task result c c' v q e = close_in_loop-IsStalled sent c c' v e
run_task-IsStalled sent write_complete_task result c c' v q e = ground arith
run_task-IsStalled sent (high_water_task n) result c c' v q e = ground arith

next_task-IsStalled :
    (sent : Bytes) (ts : List Task) (result : SysResult ℕ) (c c' : Connection)
    → IsStalled sent c
    → quiet ts ≡ true
    → next_task ts result c ≡ some c'
    → IsStalled sent c'
unfolding next_task quiet
next_task-IsStalled sent [] result c c' v q e = ground arith
next_task-IsStalled sent (t ∷ ts) result c c' v q e =
    run_task-IsStalled sent t result (record c { queued = ts }) c' (ground arith) (ground arith) e

step-IsStalled :
    (sent : Bytes) (e : Event) (c c' : Connection)
    → IsStalled sent c
    → step e c ≡ some c'
    → IsStalled sent c'
unfolding step handle_error
step-IsStalled sent established c c' v h = established-IsStalled sent c c' v h
step-IsStalled sent destroyed c c' v h = destroyed-IsStalled sent c c' v h
step-IsStalled sent errs c c' v h = close-IsStalled sent c c' v h
step-IsStalled sent (reads result) c c' v h = reads-IsStalled sent c c' v result h
step-IsStalled sent (writes result) c c' v h = writes-IsStalled sent c c' v result h
step-IsStalled sent (sends in_loop bytes result) c c' v h =
    sends-IsStalled sent c c' v in_loop bytes result h
step-IsStalled sent (shuts in_loop) c c' v h =
    subst (IsStalled sent) (some_injective h) (shuts-IsStalled sent c c' v in_loop)
step-IsStalled sent (closes in_loop) c c' v h = closes-IsStalled sent c c' v in_loop h
step-IsStalled sent (runs_task result) c c' v h =
    next_task-IsStalled sent c.queued result c c' v v.no_messages h

-- Once a connection with waiting output is shut down, nothing that can happen to it sends the
-- waiting bytes or shuts the sending side: `handle_write` and `send` do nothing, and
-- `shutdown_in_loop` waits for an empty buffer.
pub run-IsStalled :
    (es : List Event) (sent : Bytes) (c c' : Connection)
    → IsStalled sent c
    → run es c ≡ some c'
    → IsStalled sent c'
run-IsStalled es sent = run_induction (IsStalled sent) (step-IsStalled sent) es

-- `shutdown` with waiting output leads there.
pub shutdown-IsStalled :
    (c : Connection)
    → c.state ≡ connected
    → readable_bytes c.output ≢ 0
    → c.write_shut ≡ false
    → quiet c.queued ≡ true
    → (in_loop : Bool) → IsStalled c.sent (shutdown in_loop c)
unfolding shutdown
shutdown-IsStalled c e n s q in_loop = ground (arith, quiet-append c.queued shutdown_task)
