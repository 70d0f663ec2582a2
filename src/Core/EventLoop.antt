-- ===== src/Core/EventLoop.antt =====
-- include/tzzero/core/event_loop.h and src/core/event_loop.cpp: the loop of a thread, with the
-- functors that its own and other threads give it. A step is what one thread does between two
-- places where others can come between; a functor is a number, and `spawns` lists the functors that
-- it queues while it runs. `none` is a step that cannot be taken now.
pub mod Wakeups
mod Tests
use tzzero_http.Prelude.{
  ℕ, zero, suc, ◌+◌, ◌-◌, ◌^◌, Bool, true, false, not, ◌&&◌, ltb, leb, if◌then◌else◌, Option, none,
  some, List, [], ◌∷◌, ◌++◌, length, min,
}

-- Where the loop's thread stands: before `loop`, at the test of `while`, in `poll`, among the
-- callbacks of the active events (whether the one of the wake-up descriptor is still to come), in
-- `do_pending_functors` with the functors that it took, or behind `loop`.
pub data Phase : Type 0 where
  created checking polling returned : Phase
  handling : Bool → Phase
  draining : List ℕ → Phase

-- `counter` is the eventfd's, `writers` the threads that changed the loop and have still to write to
-- it. `queued` and `ran` are the functors that were queued, and those that the loop ran from the
-- queue, in order. `signalled` is set by a `quit` of a signal handler, since the entry to `loop`.
pub record EventLoop : Type 0 where
  pub phase : Phase
  pub quit : Bool
  pub signalled : Bool
  pub pending : List ℕ
  pub counter : ℕ
  pub writers : ℕ
  pub queued : List ℕ
  pub ran : List ℕ

unfoldable pub make : EventLoop
make = record {
  phase = created;
  quit = false;
  signalled = false;
  pending = [];
  counter = 0;
  writers = 0;
  queued = [];
  ran = [];
}

-- What an eventfd can count to; a write beyond it fails, and is ignored.
abbrev pub max_counter : ℕ
max_counter = 2 ^ 64 - 2

unfoldable pub wake_up : EventLoop → EventLoop
wake_up l = record l { counter = if ltb l.counter max_counter then suc l.counter else l.counter }

unfoldable pub handle_wake_up : EventLoop → EventLoop
handle_wake_up l = record l { counter = 0 }

-- The locked part of `queue_in_loop`.
unfoldable pub push : ℕ → EventLoop → EventLoop
push f l = record l { pending = l.pending ++ f ∷ []; queued = l.queued ++ f ∷ [] }

-- By the loop's own thread.
unfoldable pub queue_in_loop : ℕ → EventLoop → EventLoop
unfolding push wake_up
queue_in_loop f l = wake_up (push f l)

unfoldable pub queue_all : List ℕ → EventLoop → EventLoop
unfolding queue_in_loop
queue_all [] l = l
queue_all (f ∷ fs) l = queue_all fs (queue_in_loop f l)

-- The first half of `queue_in_loop` and of `quit`, by another thread.
unfoldable pub queue_from_outside : ℕ → EventLoop → EventLoop
unfolding push
queue_from_outside f l = record (push f l) { writers = suc l.writers }

unfoldable pub quit_from_outside : EventLoop → EventLoop
quit_from_outside l = record l { quit = true; writers = suc l.writers }

-- The second half.
unfoldable pub write_from_outside : ℕ → EventLoop → Option EventLoop
unfolding wake_up
write_from_outside zero l = none
write_from_outside (suc n) l = some (wake_up (record l { writers = n }))

-- `quit` by the loop's own thread, from a callback.
unfoldable pub quit_in_loop : EventLoop → EventLoop
quit_in_loop l = record l { quit = true }

-- `quit` by the loop's own thread, from a signal handler, wherever the thread stands.
unfoldable pub quit_from_signal : EventLoop → EventLoop
quit_from_signal l = record l { quit = true; signalled = true }

-- The head of `loop`.
unfoldable pub start : Phase → EventLoop → Option EventLoop
start created l = some (record l { phase = checking; quit = false; signalled = false })
start _ l = none

unfoldable pub check : Phase → EventLoop → Option EventLoop
check checking l = some (record l { phase = if l.quit then returned else polling })
check _ l = none

-- What `poll` answers: the wake-up descriptor is among the active events, or is not; a signal; or
-- another error. It can be among them only if its counter is not 0.
pub data Answer : Type 0 where
  active : Bool → Answer
  interrupted failed : Answer

unfoldable pub answered : Answer → EventLoop → Option EventLoop
answered (active woken) l =
    if woken && not (ltb 0 l.counter) then none else some (record l { phase = handling woken })
answered interrupted l = some (record l { phase = checking })
answered failed l = some (record l { phase = returned })

unfoldable pub poll : Answer → Phase → EventLoop → Option EventLoop
unfolding answered
poll a polling l = answered a l
poll a _ l = none

-- The callback of the wake-up descriptor.
unfoldable pub call_wake_up : Phase → EventLoop → Option EventLoop
unfolding handle_wake_up
call_wake_up (handling true) l = some (record (handle_wake_up l) { phase = handling false })
call_wake_up _ l = none

abbrev runs_callbacks : Phase → Bool
runs_callbacks (handling woken) = true
runs_callbacks (draining fs) = true
runs_callbacks _ = false

-- What a timer, or the callback of another descriptor, asks for.
unfoldable pub callback_queues : ℕ → EventLoop → Option EventLoop
unfolding queue_in_loop
callback_queues f l = if runs_callbacks l.phase then some (queue_in_loop f l) else none

unfoldable pub callback_quits : EventLoop → Option EventLoop
unfolding quit_in_loop
callback_quits l = if runs_callbacks l.phase then some (quit_in_loop l) else none

-- The head of `do_pending_functors`, when the callbacks are done.
unfoldable pub swap_pending : Phase → EventLoop → Option EventLoop
swap_pending (handling false) l = some (record l { phase = draining l.pending; pending = [] })
swap_pending _ l = none

module _ (spawns : ℕ → List ℕ) where
  -- The next functor of those that were taken, or the end of the round.
  unfoldable pub run_functor : Phase → EventLoop → Option EventLoop
  unfolding queue_all
  run_functor (draining (f ∷ fs)) l =
      some (queue_all (spawns f) (record l { phase = draining fs; ran = l.ran ++ f ∷ [] }))
  run_functor (draining []) l = some (record l { phase = checking })
  run_functor _ l = none

  -- `run_in_loop` by the loop's own thread, from a callback: the functor is called at once. By
  -- another thread it is `queue_in_loop`.
  unfoldable pub run_in_loop : ℕ → EventLoop → Option EventLoop
  unfolding queue_all
  run_in_loop f l = if runs_callbacks l.phase then some (queue_all (spawns f) l) else none

pub data Event : Type 0 where
  queues_outside : ℕ → Event
  quits_outside writes_outside starts checks wakes callback_quit signal_quit swaps runs_functor :
      Event
  callback_queue callback_runs : ℕ → Event
  polls : Answer → Event

module _ (spawns : ℕ → List ℕ) where
  unfoldable pub step : Event → EventLoop → Option EventLoop
  unfolding queue_from_outside quit_from_outside write_from_outside start check poll call_wake_up
      callback_queues callback_quits quit_from_signal swap_pending run_functor run_in_loop
  step (queues_outside f) l = some (queue_from_outside f l)
  step quits_outside l = some (quit_from_outside l)
  step writes_outside l = write_from_outside l.writers l
  step starts l = start l.phase l
  step checks l = check l.phase l
  step (polls a) l = poll a l.phase l
  step wakes l = call_wake_up l.phase l
  step (callback_queue f) l = callback_queues f l
  step (callback_runs f) l = run_in_loop spawns f l
  step callback_quit l = callback_quits l
  step signal_quit l = some (quit_from_signal l)
  step swaps l = swap_pending l.phase l
  step runs_functor l = run_functor spawns l.phase l

  unfoldable pub run : List Event → EventLoop → Option EventLoop
  run [] l = some l
  run (e ∷ es) l = elim (step e l) [ none ↦ none | some l' ↦ run es l' ]
