-- ===== src/Utils/ThreadPool/Progress.antt =====
-- The pool comes to rest, and at rest the work is done.
use tzzero_http.Prelude.{
  ℕ, zero, suc, ◌+◌, ◌*◌, ◌≤◌, ◌<◌, ◌≡◌, inl, inr, refl, ap, arith, Bool, true, false, Option, none,
  some, List, [], ◌∷◌, get_elem?, length, length-set, Option-cases, subst, All,
}
use tzzero_http.Utils.ThreadPool.{
  Worker, awake, asleep, done, running, ThreadPool, serve, turn, finish, wake, rouse_all, total,
  notify_one, notify_all, spend_notice, spend_broadcast, ◌>>=◌, Event, submits, stops, spurious,
  turns, finishes, notifies, notifies_all, step, run,
}
use tzzero_http.Utils.ThreadPool.Invariant.{some_injective, length-rouse_all}
use tzzero_http.Utils.ThreadPool.Weights.{total-set}

-- The steps of the pool itself, without the calls of its users and the returns that nobody asked for.
abbrev pub is_internal : Event → Bool
is_internal (turns i) = true
is_internal (finishes i) = true
is_internal (notifies who) = true
is_internal notifies_all = true
is_internal _ = false

abbrev pub weight : Worker → ℕ
weight awake = 1
weight asleep = 0
weight done = 0
weight (running t) = 2

-- A bound on the steps that are left.
abbrev pub measure : ThreadPool → ℕ
measure p =
    2 * length p.tasks
    + total weight p.workers
    + 2 * p.notices
    + (length p.workers + 1) * p.broadcasts

mul_suc : (a b : ℕ) → a * suc b ≡ a * b + a
mul_suc a b = grind arith

weight-rouse_all : (ws : List Worker) → total weight (rouse_all ws) ≤ total weight ws + length ws
unfolding rouse_all total
weight-rouse_all [] = omega arith
weight-rouse_all (awake ∷ ws) = omega (arith, weight-rouse_all ws)
weight-rouse_all (asleep ∷ ws) = omega (arith, weight-rouse_all ws)
weight-rouse_all (done ∷ ws) = omega (arith, weight-rouse_all ws)
weight-rouse_all (running t ∷ ws) = omega (arith, weight-rouse_all ws)

serve-measure :
    (i : ℕ) (p : ThreadPool) (ts : List ℕ)
    → get_elem? p.workers i ≡ some awake
    → p.tasks ≡ ts
    → measure (serve i ts p) < measure p
unfolding serve
serve-measure i p [] h e = ground (
  arith,
  length-set p.workers i done,
  length-set p.workers i asleep,
  total-set weight p.workers i awake done h,
  total-set weight p.workers i awake asleep h,
)
serve-measure i p (t ∷ ts) h e =
    let w = total-set weight p.workers i awake (running t) h in
    rw (length-set p.workers i (running t), e) (omega (arith, w))

turn-measure :
    (i : ℕ) (p p' : ThreadPool) (w : Option Worker)
    → get_elem? p.workers i ≡ w
    → turn i w p ≡ some p'
    → measure p' < measure p
unfolding turn
turn-measure i p p' (some awake) e h =
    subst (λ x. measure x < measure p) (some_injective h) (serve-measure i p p.tasks e refl)
turn-measure i p p' (some asleep) e h = absurd (cc)
turn-measure i p p' (some done) e h = absurd (cc)
turn-measure i p p' (some (running t)) e h = absurd (cc)
turn-measure i p p' none e h = absurd (cc)

finish-measure :
    (i : ℕ) (p p' : ThreadPool) (w : Option Worker)
    → get_elem? p.workers i ≡ w
    → finish i w p ≡ some p'
    → measure p' < measure p
unfolding finish
finish-measure i p p' (some (running t)) e h =
    subst (λ x. measure x < measure p) (some_injective h)
      (rw (length-set p.workers i awake)
        (omega (arith, total-set weight p.workers i (running t) awake e)))
finish-measure i p p' (some awake) e h = absurd (cc)
finish-measure i p p' (some asleep) e h = absurd (cc)
finish-measure i p p' (some done) e h = absurd (cc)
finish-measure i p p' none e h = absurd (cc)

wake-measure :
    (i n : ℕ) (p p' : ThreadPool) (w : Option Worker)
    → get_elem? p.workers i ≡ w
    → p.notices ≡ suc n
    → wake i w (record p { notices = n }) ≡ some p'
    → measure p' < measure p
unfolding wake
wake-measure i n p p' (some asleep) e s h =
    subst (λ x. measure x < measure p) (some_injective h)
      (rw (length-set p.workers i awake)
        (omega (arith, total-set weight p.workers i asleep awake e)))
wake-measure i n p p' (some (running t)) e s h = absurd (cc)
wake-measure i n p p' (some awake) e s h = absurd (cc)
wake-measure i n p p' (some done) e s h = absurd (cc)
wake-measure i n p p' none e s h = absurd (cc)

pub notify_none-eq : (p p' : ThreadPool) → notify_one none p ≡ some p' → p ≡ p'
unfolding notify_one
notify_none-eq p p' h = ground arith

notifies-measure :
    (who : Option ℕ) (n : ℕ) (p p' : ThreadPool)
    → p.notices ≡ n
    → (do q ← spend_notice n p; notify_one who q) ≡ some p'
    → measure p' < measure p
unfolding spend_notice notify_one
notifies-measure who zero p p' e h = absurd (cc)
notifies-measure (some i) (suc n) p p' e h = wake-measure i n p p' (get_elem? p.workers i) refl e h
notifies-measure none (suc n) p p' e h =
    subst (λ x. measure x < measure p) (notify_none-eq (record p { notices = n }) p' h)
      (omega (arith, e))

notifies_all-measure :
    (n : ℕ) (p p' : ThreadPool)
    → p.broadcasts ≡ n
    → (do q ← spend_broadcast n p; some (notify_all q)) ≡ some p'
    → measure p' < measure p
unfolding spend_broadcast notify_all
notifies_all-measure zero p p' e h = absurd (cc)
notifies_all-measure (suc n) p p' e h =
    subst (λ x. measure x < measure p) (some_injective h)
      (rw (length-rouse_all p.workers) (
        omega (
          arith,
          weight-rouse_all p.workers,
          ap (λ (b : ℕ). (length p.workers + 1) * b) e,
          mul_suc (length p.workers + 1) n,
        )))

step-measure :
    (e : Event) (p p' : ThreadPool)
    → is_internal e ≡ true
    → step e p ≡ some p'
    → measure p' < measure p
unfolding step
step-measure (submits t) p p' i h = absurd (cc)
step-measure stops p p' i h = absurd (cc)
step-measure (spurious n) p p' i h = absurd (cc)
step-measure (turns n) p p' i h = turn-measure n p p' (get_elem? p.workers n) refl h
step-measure (finishes n) p p' i h = finish-measure n p p' (get_elem? p.workers n) refl h
step-measure (notifies who) p p' i h = notifies-measure who p.notices p p' refl h
step-measure notifies_all p p' i h = notifies_all-measure p.broadcasts p p' refl h

-- However the scheduler chooses, the pool takes no more steps of its own than its measure says: twice
-- the tasks that wait, two for each running worker, one for each that is up, two for each
-- `notify_one` to come, and one more than there are workers for each `notify_all`.
pub run_internal-bounded :
    (es : List Event) (p p' : ThreadPool)
    → All (λ e. is_internal e ≡ true) es
    → run es p ≡ some p'
    → measure p' + length es ≤ measure p
unfolding run
run_internal-bounded [] p p' i h = omega (arith, ap measure (some_injective h))
run_internal-bounded (e ∷ es) p p' i h = elim (Option-cases (step e p)) [
  | inl q ↦ absurd (cc (rw (q, run) at h))
  | inr (d, q) ↦
      omega (arith, step-measure e p d i.0 q, run_internal-bounded es d p' i.1 (rw q at h))
]
