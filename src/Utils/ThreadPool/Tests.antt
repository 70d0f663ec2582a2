-- ===== src/Utils/ThreadPool/Tests.antt =====
-- `ThreadPool` (src/utils/thread_pool.cpp) with one worker and two tasks.
use tzzero_http.Prelude.{
  ℕ, zero, suc, ◌+◌, ◌≤◌, ◌≡◌, ◌⊎◌, refl, arith, true, false, Option, none, some, List, [], ◌∷◌,
  length,
}
use tzzero_http.Utils.ThreadPool.{
  ThreadPool, done, asleep, make, Event, submits, stops, spurious, turns, finishes, notifies,
  notifies_all, step, run, total,
}
use tzzero_http.Utils.ThreadPool.Invariant.{IsValid, is_done, make-IsValid, run-IsValid}
use tzzero_http.Utils.ThreadPool.Progress.{measure, run_internal-bounded}
use tzzero_http.Utils.ThreadPool.Tallied.{count}
use tzzero_http.Utils.ThreadPool.Rest.{IsAtRest, at_rest-finished}

-- The worker sleeps, two tasks come, and the pool is stopped while the first one runs.
abbrev calls : List Event
calls = turns 0 ∷ submits 7 ∷ notifies (some 0) ∷ submits 8 ∷ turns 0 ∷ stops ∷ []

abbrev work : List Event
work = notifies none ∷ finishes 0 ∷ turns 0 ∷ notifies_all ∷ finishes 0 ∷ turns 0 ∷ []

abbrev ended : ThreadPool
ended = record {
  workers = done ∷ [];
  tasks = [];
  stop_flag = true;
  notices = 0;
  broadcasts = 0;
  submitted = 7 ∷ 8 ∷ [];
  begun = 7 ∷ 8 ∷ [];
  finished = 7 ∷ 8 ∷ [];
}

abbrev result_of : Option ThreadPool → ThreadPool
result_of none = ended
result_of (some p) = p

abbrev halfway : ThreadPool
halfway = result_of (run calls (make 1))

calls-run : run calls (make 1) ≡ some halfway
unfolding run step make
calls-run = refl

work-run : run work halfway ≡ some ended
unfolding run step make
work-run = refl

run-IsValid_example : IsValid halfway
run-IsValid_example = run-IsValid calls (make 1) halfway (make-IsValid 1 (omega arith)) calls-run

run_internal-bounded_example : measure ended + length work ≤ measure halfway
run_internal-bounded_example = run_internal-bounded work halfway ended (ground arith) work-run

abbrev one_task : List Event
one_task = turns 0 ∷ submits 7 ∷ notifies (some 0) ∷ turns 0 ∷ finishes 0 ∷ turns 0 ∷ []

abbrev at_rest : ThreadPool
at_rest = record (make 1) {
  workers = asleep ∷ [];
  submitted = 7 ∷ [];
  begun = 7 ∷ [];
  finished = 7 ∷ [];
}

one_task-run : run one_task (make 1) ≡ some at_rest
unfolding run step make
one_task-run = refl

at_rest-IsAtRest : IsAtRest at_rest
unfolding step make
at_rest-IsAtRest (submits t) h = cc
at_rest-IsAtRest stops h = cc
at_rest-IsAtRest (spurious i) h = cc
at_rest-IsAtRest (turns zero) h = refl
at_rest-IsAtRest (turns (suc i)) h = refl
at_rest-IsAtRest (finishes zero) h = refl
at_rest-IsAtRest (finishes (suc i)) h = refl
at_rest-IsAtRest (notifies who) h = refl
at_rest-IsAtRest notifies_all h = refl

at_rest-finished_example :
    (at_rest.tasks ≡ [])
    × ((t : ℕ) → count t at_rest.finished ≡ count t at_rest.submitted)
    × ((at_rest.stop_flag ≡ false) ⊎ (total is_done at_rest.workers ≡ length at_rest.workers))
at_rest-finished_example =
    at_rest-finished 1 one_task at_rest (omega arith) one_task-run at_rest-IsAtRest
