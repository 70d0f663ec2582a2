-- ===== src/Net/Connection/Events.antt =====
-- What can happen to a connection, one call of a method at a time: the events of the poller, the
-- calls of the application and of the server, and the functors in the loop's queue. The message
-- callback's calls are events of their own, behind the one that read the bytes.
use tzzero_http.Prelude.{
  ℕ, Bool, Option, some, List, [], ◌∷◌, Bytes, ◌≡◌, subst, inl, inr, Option-cases,
}
use tzzero_http.Buffer.{SysResult}
use tzzero_http.Net.Connection.{
  Connection, Task, connection_established, connection_destroyed, handle_read, handle_write,
  handle_error, send, shutdown, force_close, run_task, ◌>>=◌,
}

pub data Event : Type 0 where
  established destroyed errs : Event
  reads : SysResult Bytes → Event
  writes : SysResult ℕ → Event
  sends : Bool → Bytes → SysResult ℕ → Event
  shuts closes : Bool → Event
  runs_task : SysResult ℕ → Event

-- The first functor of the queue is taken out and run.
unfoldable pub next_task : List Task → SysResult ℕ → Connection → Option Connection
unfolding run_task
next_task [] result c = some c
next_task (t ∷ ts) result c = run_task t result (record c { queued = ts })

unfoldable pub step : Event → Connection → Option Connection
unfolding next_task
step established c = connection_established c
step destroyed c = connection_destroyed c
step errs c = handle_error c
step (reads result) c = handle_read (λ x. some x) result c
step (writes result) c = handle_write result c
step (sends in_loop bytes result) c = send in_loop bytes result c
step (shuts in_loop) c = some (shutdown in_loop c)
step (closes in_loop) c = force_close in_loop c
step (runs_task result) c = next_task c.queued result c

unfoldable pub run : List Event → Connection → Option Connection
run [] c = some c
run (e ∷ es) c = do c' ← step e c; run es c'

pub some_injective : {a b : Connection} → some a ≡ some b → a ≡ b
some_injective h = cc

-- A property that each step keeps is kept by a run.
pub run_induction {ℓ} :
    (P : Connection → Type ℓ)
    → ((e : Event) (c c' : Connection) → P c → step e c ≡ some c' → P c')
    → (es : List Event) (c c' : Connection) → P c
    → run es c ≡ some c'
    → P c'
unfolding run
run_induction P keep [] c c' p h = subst P (some_injective h) p
run_induction P keep (e ∷ es) c c' p h = elim (Option-cases (step e c)) [
  | inl q ↦ absurd (cc (rw (q, run) at h))
  | inr (d, q) ↦ run_induction P keep es d c' (keep e c d p q) (rw q at h)
]
