-- ===== src/Core/EventLoop/Tests.antt =====
-- `EventLoop` (src/core/event_loop.cpp) with one functor from another thread, which queues another.
use tzzero_http.Prelude.{
  ℕ, ◌≡◌, ◌==◌, refl, if◌then◌else◌, true, false, Option, none, some, List, [], ◌∷◌,
}
use tzzero_http.Core.EventLoop.{
  EventLoop, created, polling, make, active, Event, queues_outside, writes_outside, starts, checks,
  polls, wakes, swaps, runs_functor, step, run,
}
use tzzero_http.Core.EventLoop.Wakeups.{IsAwaited, make-IsAwaited, run-IsAwaited}

-- The functor 1 queues the functor 2.
abbrev spawns : ℕ → List ℕ
spawns f = if f == 1 then 2 ∷ [] else []

abbrev events : List Event
events =
    starts
    ∷ checks
    ∷ queues_outside 1
    ∷ writes_outside
    ∷ polls (active true)
    ∷ wakes
    ∷ swaps
    ∷ runs_functor
    ∷ runs_functor
    ∷ checks
    ∷ []

abbrev result_of : Option EventLoop → EventLoop
result_of none = record {
  phase = polling;
  quit = true;
  signalled = false;
  pending = [];
  counter = 0;
  writers = 0;
  queued = [];
  ran = [];
}
result_of (some l) = l

abbrev waiting : EventLoop
waiting = result_of (run spawns events make)

events-run :
    (run spawns events make ≡ some waiting)
    × (waiting.ran ≡ 1 ∷ [])
    × (waiting.pending ≡ 2 ∷ [])
    × (waiting.counter ≡ 1)
unfolding run step make
events-run = (refl, refl, refl, refl)

run-IsAwaited_example : IsAwaited waiting
run-IsAwaited_example = run-IsAwaited spawns events make waiting make-IsAwaited events-run.0

make-created : make.phase ≡ created
unfolding make
make-created = refl
