-- ===== src/Utils/ThreadPool.antt =====
-- include/tzzero/utils/thread_pool.h and src/utils/thread_pool.cpp: the worker threads and their
-- queue of tasks. A step is what one thread does while it holds the mutex, or one call on the
-- condition variable; the scheduler chooses the order. A task is a number, and its exceptions go to
-- its future. `none` is a step that cannot be taken.
pub mod Weights
pub mod Invariant
pub mod Progress
pub mod Tallied
pub mod Rest
mod Tests
use tzzero_http.Prelude.{
  ℕ, zero, suc, ◌+◌, ◌-◌, Bool, true, false, ltb, ◌==◌, if◌then◌else◌, Option, none, some, List, [],
  ◌∷◌, ◌++◌, set, get_elem?, replicate, length,
}

-- Where a worker stands: about to test the predicate of `wait`, asleep in `wait`, running a task, or
-- returned.
pub data Worker : Type 0 where
  awake asleep done : Worker
  running : ℕ → Worker

-- `notices` and `broadcasts` count the calls of `notify_one` and `notify_all` that are still to be
-- made, behind a change of the queue or of the flag. `submitted`, `begun` and `finished` are the
-- tasks that the pool accepted, took out of the queue and ran to the end, in order.
pub record ThreadPool : Type 0 where
  pub workers : List Worker
  pub tasks : List ℕ
  pub stop_flag : Bool
  pub notices : ℕ
  pub broadcasts : ℕ
  pub submitted : List ℕ
  pub begun : List ℕ
  pub finished : List ℕ

unfoldable pub make : ℕ → ThreadPool
make num_threads = record {
  workers = replicate num_threads awake;
  tasks = [];
  stop_flag = false;
  notices = 0;
  broadcasts = 0;
  submitted = [];
  begun = [];
  finished = [];
}

unfoldable pub size : ThreadPool → ℕ
size p = length p.workers

-- `submit` throws on a stopped pool.
unfoldable pub submit : ℕ → ThreadPool → Option ThreadPool
submit t p =
    if p.stop_flag
    then none
    else some (record p {
      tasks = p.tasks ++ t ∷ [];
      notices = suc p.notices;
      submitted = p.submitted ++ t ∷ [];
    })

-- The locked part of `stop`.
unfoldable pub stop : ThreadPool → ThreadPool
stop p = record p { stop_flag = true; broadcasts = suc p.broadcasts }

-- The locked part of a worker's round: the predicate of `wait`, the test for the end, and the task
-- at the front.
unfoldable pub serve : ℕ → List ℕ → ThreadPool → ThreadPool
serve i [] p = record p { workers = set p.workers i (if p.stop_flag then done else asleep) }
serve i (t ∷ ts) p = record p {
  workers = set p.workers i (running t);
  tasks = ts;
  begun = p.begun ++ t ∷ [];
}

unfoldable pub turn : ℕ → Option Worker → ThreadPool → Option ThreadPool
unfolding serve
turn i (some awake) p = some (serve i p.tasks p)
turn i _ p = none

-- `task()` returns.
unfoldable pub finish : ℕ → Option Worker → ThreadPool → Option ThreadPool
finish i (some (running t)) p =
    some (record p { workers = set p.workers i awake; finished = p.finished ++ t ∷ [] })
finish i _ p = none

unfoldable pub wake : ℕ → Option Worker → ThreadPool → Option ThreadPool
wake i (some asleep) p = some (record p { workers = set p.workers i awake })
wake i _ p = none

abbrev pub rouse : Worker → Worker
rouse asleep = awake
rouse w = w

unfoldable pub rouse_all : List Worker → List Worker
rouse_all [] = []
rouse_all (w ∷ ws) = rouse w ∷ rouse_all ws

abbrev pub is_asleep : Worker → ℕ
is_asleep asleep = 1
is_asleep _ = 0

unfoldable pub total : (Worker → ℕ) → List Worker → ℕ
total f [] = 0
total f (w ∷ ws) = f w + total f ws

-- `notify_one` wakes a sleeper, which the scheduler chooses, or nobody if nobody sleeps.
unfoldable pub notify_one : Option ℕ → ThreadPool → Option ThreadPool
unfolding wake total
notify_one (some i) p = wake i (get_elem? p.workers i) p
notify_one none p = if total is_asleep p.workers == 0 then some p else none

unfoldable pub notify_all : ThreadPool → ThreadPool
unfolding rouse_all
notify_all p = record p { workers = rouse_all p.workers }

unfoldable pub spend_notice : ℕ → ThreadPool → Option ThreadPool
spend_notice zero p = none
spend_notice (suc n) p = some (record p { notices = n })

unfoldable pub spend_broadcast : ℕ → ThreadPool → Option ThreadPool
spend_broadcast zero p = none
spend_broadcast (suc n) p = some (record p { broadcasts = n })

infixl 5 ◌>>=◌
abbrev pub ◌>>=◌ : Option ThreadPool → (ThreadPool → Option ThreadPool) → Option ThreadPool
none >>= f = none
some a >>= f = f a

-- What can happen. `spurious` is a return of `wait` that nobody asked for.
pub data Event : Type 0 where
  submits : ℕ → Event
  stops : Event
  spurious : ℕ → Event
  turns : ℕ → Event
  finishes : ℕ → Event
  notifies : Option ℕ → Event
  notifies_all : Event

unfoldable pub step : Event → ThreadPool → Option ThreadPool
unfolding submit stop wake turn finish notify_one notify_all spend_notice spend_broadcast
step (submits t) p = submit t p
step stops p = some (stop p)
step (spurious i) p = wake i (get_elem? p.workers i) p
step (turns i) p = turn i (get_elem? p.workers i) p
step (finishes i) p = finish i (get_elem? p.workers i) p
step (notifies who) p = do p' ← spend_notice p.notices p; notify_one who p'
step notifies_all p = do p' ← spend_broadcast p.broadcasts p; some (notify_all p')

unfoldable pub run : List Event → ThreadPool → Option ThreadPool
run [] p = some p
run (e ∷ es) p = do p' ← step e p; run es p'
