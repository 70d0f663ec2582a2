-- ===== src/Net/Connection/Closed.antt =====
-- A closed connection stays closed.
use tzzero_http.Prelude.{ℕ, ◌≤◌, ◌≡◌, arith, Bool, true, some, List, [], ◌∷◌, Bytes}
use tzzero_http.Buffer.{SysResult, done, failed}
use tzzero_http.Net.Connection.{
  Connection, Task, send_task, shutdown_task, force_close_task, write_complete_task,
  high_water_task, connection_established, connection_destroyed, handle_close, handle_error,
  handle_read, send, shutdown, force_close, force_close_in_loop, run_task,
}
use tzzero_http.Net.Connection.Events.{
  Event, established, destroyed, errs, reads, writes, sends, shuts, closes, runs_task, step,
  next_task,
}
use tzzero_http.Net.Connection.Watching.{
  IsConsistent, is_closed, Same, send_in_loop-Same, handle_write-Same, step-IsConsistent,
}

Same-closed : (c c' : Connection) → Same c c' → is_closed c.state ≡ true → is_closed c'.state ≡ true
Same-closed c c' s v = ground arith

reads_closed :
    (result : SysResult Bytes) (c c' : Connection)
    → is_closed c.state ≡ true
    → handle_read (λ x. some x) result c ≡ some c'
    → is_closed c'.state ≡ true
unfolding handle_read handle_error handle_close
reads_closed (done []) c c' v h = ground arith
reads_closed (done (x ∷ bytes)) c c' v h = ground arith
reads_closed (failed errno) c c' v h = ground arith

tasks_closed :
    (ts : List Task) (result : SysResult ℕ) (c c' : Connection)
    → is_closed c.state ≡ true
    → next_task ts result c ≡ some c'
    → is_closed c'.state ≡ true
unfolding next_task run_task force_close_in_loop
tasks_closed [] result c c' v h = ground arith
tasks_closed (send_task bytes ∷ ts) result c c' v h =
    Same-closed (record c { queued = ts }) c'
      (send_in_loop-Same bytes result (record c { queued = ts }) c' h) v
tasks_closed (shutdown_task ∷ ts) result c c' v h = ground arith
tasks_closed (force_close_task ∷ ts) result c c' v h = ground arith
tasks_closed (write_complete_task ∷ ts) result c c' v h = ground arith
tasks_closed (high_water_task n ∷ ts) result c c' v h = ground arith

sends_closed :
    (in_loop : Bool) (bytes : Bytes) (result : SysResult ℕ) (c c' : Connection)
    → is_closed c.state ≡ true
    → send in_loop bytes result c ≡ some c'
    → is_closed c'.state ≡ true
unfolding send
sends_closed in_loop bytes result c c' v h = ground arith

step_closed :
    (e : Event) (c c' : Connection)
    → is_closed c.state ≡ true
    → step e c ≡ some c'
    → is_closed c'.state ≡ true
unfolding step connection_established connection_destroyed handle_error handle_close shutdown
    force_close
step_closed established c c' v h = ground arith
step_closed destroyed c c' v h = ground arith
step_closed errs c c' v h = ground arith
step_closed (reads result) c c' v h = reads_closed result c c' v h
step_closed (writes result) c c' v h = Same-closed c c' (handle_write-Same result c c' h) v
step_closed (sends in_loop bytes result) c c' v h = sends_closed in_loop bytes result c c' v h
step_closed (shuts in_loop) c c' v h = ground arith
step_closed (closes in_loop) c c' v h = ground arith
step_closed (runs_task result) c c' v h = tasks_closed c.queued result c c' v h

-- No step of a consistent connection calls the close callback if it was called before, or calls it
-- twice.
pub close_calls_once :
    (e : Event) (c c' : Connection)
    → IsConsistent c
    → step e c ≡ some c'
    → (c.close_calls ≤ c'.close_calls) × (c'.close_calls ≤ 1)
close_calls_once e c c' v h = ground (arith, step-IsConsistent e c c' v h, step_closed e c c')
