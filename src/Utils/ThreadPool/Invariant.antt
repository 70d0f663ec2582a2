-- ===== src/Utils/ThreadPool/Invariant.antt =====
-- The queue, the flag and the workers, over every run of steps.
use tzzero_http.Prelude.{
  ℕ, zero, suc, ◌+◌, ◌<◌, ◌≤◌, ◌≡◌, ◌⊎◌, inl, inr, refl, ap, arith, true, false, Option, none, some,
  List, [], ◌∷◌, ◌++◌, set, get_elem?, length, length-set, length-append, length-replicate,
  append_assoc, Option-cases, subst,
}
use tzzero_http.Utils.ThreadPool.{
  Worker, awake, asleep, done, running, ThreadPool, make, submit, stop, serve, turn, finish, wake,
  rouse_all, is_asleep, total, notify_one, notify_all, spend_notice, spend_broadcast, ◌>>=◌, Event,
  submits, stops, spurious, turns, finishes, notifies, notifies_all, step, run,
}
use tzzero_http.Utils.ThreadPool.Weights.{total-set, total-replicate}

abbrev pub is_active : Worker → ℕ
is_active awake = 1
is_active (running t) = 1
is_active _ = 0

-- A worker that is about to look at the queue.
abbrev pub is_awake : Worker → ℕ
is_awake awake = 1
is_awake _ = 0

abbrev pub is_done : Worker → ℕ
is_done done = 1
is_done _ = 0

-- A pool with a worker in which nothing is lost: the tasks leave the queue in the order in which they
-- were accepted; where one waits, a worker is up or a call will wake one; as long as a worker sleeps
-- and no `notify_all` is to come, there is for each task that waits a worker that is about to look at
-- the queue or a `notify_one` to come; a worker returns only from a stopped pool with an empty queue;
-- and on a stopped pool nobody sleeps, or `notify_all` is still to come.
pub record IsValid (p : ThreadPool) : Type 0 where
  pub staffed : 0 < length p.workers
  pub fifo : p.begun ++ p.tasks ≡ p.submitted
  pub served : (p.tasks ≡ []) ⊎ (0 < total is_active p.workers + p.notices + p.broadcasts)
  pub matched :
      (total is_asleep p.workers ≡ 0)
      ⊎ (0 < p.broadcasts)
      ⊎ (length p.tasks ≤ total is_awake p.workers + p.notices)
  pub ended : (total is_done p.workers ≡ 0) ⊎ ((p.stop_flag ≡ true) × (p.tasks ≡ []))
  pub waked : (p.stop_flag ≡ false) ⊎ (total is_asleep p.workers ≡ 0) ⊎ (0 < p.broadcasts)

pub make-IsValid : (n : ℕ) → 0 < n → IsValid (make n)
unfolding make
make-IsValid n pos = ground (
  arith,
  total-replicate is_done n refl,
  total-replicate is_asleep n refl,
  length-replicate {A = Worker} n awake,
)

pub parts :
    (ws : List Worker) → total is_active ws + total is_asleep ws + total is_done ws ≡ length ws
unfolding total
parts [] = refl
parts (awake ∷ ws) = omega (arith, parts ws)
parts (asleep ∷ ws) = omega (arith, parts ws)
parts (done ∷ ws) = omega (arith, parts ws)
parts (running t ∷ ws) = omega (arith, parts ws)

-- A worker's change, seen by the three sums.
record Changes (ws ws' : List Worker) (w v : Worker) : Type 0 where
  same_length : length ws' ≡ length ws
  active : total is_active ws' + is_active w ≡ total is_active ws + is_active v
  sleepers : total is_asleep ws' + is_asleep w ≡ total is_asleep ws + is_asleep v
  up : total is_awake ws' + is_awake w ≡ total is_awake ws + is_awake v
  ends : total is_done ws' + is_done w ≡ total is_done ws + is_done v

set-Changes :
    (ws : List Worker) (i : ℕ) (w v : Worker)
    → get_elem? ws i ≡ some w
    → Changes ws (set ws i v) w v
set-Changes ws i w v h = record {
  same_length = length-set ws i v;
  active = total-set is_active ws i w v h;
  sleepers = total-set is_asleep ws i w v h;
  up = total-set is_awake ws i w v h;
  ends = total-set is_done ws i w v h;
}

pub some_injective : {a b : ThreadPool} → some a ≡ some b → a ≡ b
some_injective h = cc

pub length-rouse_all : (ws : List Worker) → length (rouse_all ws) ≡ length ws
unfolding rouse_all
length-rouse_all [] = refl
length-rouse_all (w ∷ ws) = ap suc (length-rouse_all ws)

-- `notify_all`, seen by the three sums.
rouse_all-ends : (ws : List Worker) → total is_done (rouse_all ws) ≡ total is_done ws
unfolding rouse_all total
rouse_all-ends [] = refl
rouse_all-ends (awake ∷ ws) = omega (arith, rouse_all-ends ws)
rouse_all-ends (asleep ∷ ws) = omega (arith, rouse_all-ends ws)
rouse_all-ends (done ∷ ws) = omega (arith, rouse_all-ends ws)
rouse_all-ends (running t ∷ ws) = omega (arith, rouse_all-ends ws)

rouse_all-sleepers : (ws : List Worker) → total is_asleep (rouse_all ws) ≡ 0
unfolding rouse_all total
rouse_all-sleepers [] = refl
rouse_all-sleepers (awake ∷ ws) = omega (arith, rouse_all-sleepers ws)
rouse_all-sleepers (asleep ∷ ws) = omega (arith, rouse_all-sleepers ws)
rouse_all-sleepers (done ∷ ws) = omega (arith, rouse_all-sleepers ws)
rouse_all-sleepers (running t ∷ ws) = omega (arith, rouse_all-sleepers ws)

submit-IsValid : (t : ℕ) (p p' : ThreadPool) → IsValid p → submit t p ≡ some p' → IsValid p'
unfolding submit
submit-IsValid t p p' v h =
    ground (arith, append_assoc p.begun p.tasks (t ∷ []), length-append p.tasks (t ∷ []))

serve-IsValid :
    (i : ℕ) (p : ThreadPool) (ts : List ℕ)
    → IsValid p
    → get_elem? p.workers i ≡ some awake
    → p.tasks ≡ ts
    → IsValid (serve i ts p)
unfolding serve
serve-IsValid i p [] v h e =
    let ending = set-Changes p.workers i awake done h in
    let sleeping = set-Changes p.workers i awake asleep h in ground (arith, ending, sleeping)
serve-IsValid i p (t ∷ ts) v h e =
    let change = set-Changes p.workers i awake (running t) h in
    ground (arith, change, append_assoc p.begun (t ∷ []) ts)

turn-IsValid :
    (i : ℕ) (p p' : ThreadPool) (w : Option Worker)
    → IsValid p
    → get_elem? p.workers i ≡ w
    → turn i w p ≡ some p'
    → IsValid p'
unfolding turn
turn-IsValid i p p' (some awake) v e h =
    subst IsValid (some_injective h) (serve-IsValid i p p.tasks v e refl)
turn-IsValid i p p' (some asleep) v e h = absurd (cc)
turn-IsValid i p p' (some done) v e h = absurd (cc)
turn-IsValid i p p' (some (running t)) v e h = absurd (cc)
turn-IsValid i p p' none v e h = absurd (cc)

finish-IsValid :
    (i : ℕ) (p p' : ThreadPool) (w : Option Worker)
    → IsValid p
    → get_elem? p.workers i ≡ w
    → finish i w p ≡ some p'
    → IsValid p'
unfolding finish
finish-IsValid i p p' (some (running t)) v e h =
    let change = set-Changes p.workers i (running t) awake e in ground (arith, change)
finish-IsValid i p p' (some awake) v e h = absurd (cc)
finish-IsValid i p p' (some asleep) v e h = absurd (cc)
finish-IsValid i p p' (some done) v e h = absurd (cc)
finish-IsValid i p p' none v e h = absurd (cc)

wake-IsValid :
    (i n : ℕ) (p p' : ThreadPool) (w : Option Worker)
    → IsValid p
    → p.notices ≤ suc n
    → get_elem? p.workers i ≡ w
    → wake i w (record p { notices = n }) ≡ some p'
    → IsValid p'
unfolding wake
wake-IsValid i n p p' (some asleep) v b e h =
    let change = set-Changes p.workers i asleep awake e in ground (arith, change)
wake-IsValid i n p p' (some (running t)) v b e h = absurd (cc)
wake-IsValid i n p p' (some awake) v b e h = absurd (cc)
wake-IsValid i n p p' (some done) v b e h = absurd (cc)
wake-IsValid i n p p' none v b e h = absurd (cc)

notify_one-IsValid :
    (who : Option ℕ) (n : ℕ) (p p' : ThreadPool)
    → IsValid p
    → p.notices ≤ suc n
    → notify_one who (record p { notices = n }) ≡ some p'
    → IsValid p'
unfolding notify_one
notify_one-IsValid (some i) n p p' v b h = wake-IsValid i n p p' (get_elem? p.workers i) v b refl h
notify_one-IsValid none n p p' v b h = ground (arith, parts p.workers)

notifies-IsValid :
    (who : Option ℕ) (n : ℕ) (p p' : ThreadPool)
    → IsValid p
    → p.notices ≡ n
    → (do q ← spend_notice n p; notify_one who q) ≡ some p'
    → IsValid p'
unfolding spend_notice
notifies-IsValid who zero p p' v b h = absurd (cc)
notifies-IsValid who (suc n) p p' v b h = notify_one-IsValid who n p p' v (omega (arith, b)) h

notifies_all-IsValid :
    (n : ℕ) (p p' : ThreadPool)
    → IsValid p
    → (do q ← spend_broadcast n p; some (notify_all q)) ≡ some p'
    → IsValid p'
unfolding spend_broadcast notify_all
notifies_all-IsValid zero p p' v h = absurd (cc)
notifies_all-IsValid (suc n) p p' v h = ground (
  arith,
  parts p.workers,
  parts (rouse_all p.workers),
  rouse_all-ends p.workers,
  rouse_all-sleepers p.workers,
  length-rouse_all p.workers,
)

step-IsValid : (e : Event) (p p' : ThreadPool) → IsValid p → step e p ≡ some p' → IsValid p'
unfolding step
step-IsValid (submits t) p p' v h = submit-IsValid t p p' v h
step-IsValid stops p p' v h = unfold stop in ground arith
step-IsValid (spurious i) p p' v h =
    wake-IsValid i p.notices p p' (get_elem? p.workers i) v (omega arith) refl h
step-IsValid (turns i) p p' v h = turn-IsValid i p p' (get_elem? p.workers i) v refl h
step-IsValid (finishes i) p p' v h = finish-IsValid i p p' (get_elem? p.workers i) v refl h
step-IsValid (notifies who) p p' v h = notifies-IsValid who p.notices p p' v refl h
step-IsValid notifies_all p p' v h = notifies_all-IsValid p.broadcasts p p' v h

-- In every run from a valid pool, such as a new one with a worker, whatever the scheduler chooses,
-- the tasks are begun in the order in which they were accepted, and no wake-up is lost: as long as a
-- worker sleeps and no `notify_all` is to come, each task that waits has a worker that is about to look
-- at the queue or a `notify_one` to come; on a stopped pool nobody sleeps, or `notify_all` is still to
-- come; and a worker returns only from a stopped pool with an empty queue.
pub run-IsValid :
    (es : List Event) (p p' : ThreadPool) → IsValid p → run es p ≡ some p' → IsValid p'
unfolding run
run-IsValid [] p p' v h = subst IsValid (some_injective h) v
run-IsValid (e ∷ es) p p' v h = elim (Option-cases (step e p)) [
  | inl q ↦ absurd (cc (rw (q, run) at h))
  | inr (d, q) ↦ run-IsValid es d p' (step-IsValid e p d v q) (rw q at h)
]
