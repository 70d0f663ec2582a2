-- ===== src/Utils/ThreadPool/Rest.antt =====
-- What holds when a pool has come to rest.
use tzzero_http.Prelude.{
  ℕ, zero, suc, ◌≤◌, ◌<◌, ◌≡◌, ◌≢◌, ◌⊎◌, inl, inr, refl, sym, ap, ◌∙◌, arith, true, false, none,
  some, List, [], ◌∷◌, ◌++◌, get_elem?, length, append-nil,
}
use tzzero_http.Utils.ThreadPool.{
  Worker, awake, asleep, done, running, ThreadPool, make, turn, finish, wake, is_asleep, total,
  notify_one, spend_notice, spend_broadcast, Event, turns, finishes, notifies, notifies_all, step,
  run,
}
use tzzero_http.Utils.ThreadPool.Invariant.{is_active, is_done, make-IsValid, run-IsValid, parts}
use tzzero_http.Utils.ThreadPool.Progress.{is_internal}
use tzzero_http.Utils.ThreadPool.Weights.{total-find, total-replicate}
use tzzero_http.Utils.ThreadPool.Tallied.{count, run-IsTallied, is_running, IsTallied}

-- The pool can take no step of its own.
abbrev pub IsAtRest : ThreadPool → Type 0
IsAtRest p = (e : Event) → is_internal e ≡ true → step e p ≡ none

turns_enabled :
    (i : ℕ) (p : ThreadPool) → get_elem? p.workers i ≡ some awake → step (turns i) p ≢ none
unfolding step turn
turns_enabled i p h q = cc (rw h at q)

finishes_enabled :
    (i t : ℕ) (p : ThreadPool)
    → get_elem? p.workers i ≡ some (running t)
    → step (finishes i) p ≢ none
unfolding step finish
finishes_enabled i t p h q = cc (rw h at q)

active_enabled :
    (i : ℕ) (w : Worker) (p : ThreadPool)
    → get_elem? p.workers i ≡ some w
    → 0 < is_active w
    → ¬ IsAtRest p
active_enabled i awake p h pos rest = turns_enabled i p h (rest (turns i) refl)
active_enabled i (running t) p h pos rest = finishes_enabled i t p h (rest (finishes i) refl)
active_enabled i asleep p h pos rest = omega arith
active_enabled i done p h pos rest = omega arith

at_rest-inactive : (p : ThreadPool) → IsAtRest p → total is_active p.workers ≡ 0
at_rest-inactive p rest = elim (total-find is_active p.workers) [
  | inl z ↦ z
  | inr (i, w, h, pos) ↦ absurd (active_enabled i w p h pos rest)
]

broadcast_enabled : (n : ℕ) (p : ThreadPool) → p.broadcasts ≡ suc n → step notifies_all p ≢ none
unfolding step spend_broadcast
broadcast_enabled n p e q = cc (rw e at q)

wakes : (w : Worker) → 0 < is_asleep w → w ≡ asleep
wakes asleep h = refl
wakes awake h = absurd (omega arith)
wakes done h = absurd (omega arith)
wakes (running t) h = absurd (omega arith)

notice_enabled_one :
    (i n : ℕ) (p : ThreadPool)
    → p.notices ≡ suc n
    → get_elem? p.workers i ≡ some asleep
    → step (notifies (some i)) p ≢ none
unfolding step spend_notice notify_one wake
notice_enabled_one i n p e h q = cc (rw (e, h) at q)

notice_enabled_none :
    (n : ℕ) (p : ThreadPool)
    → p.notices ≡ suc n
    → total is_asleep p.workers ≡ 0
    → step (notifies none) p ≢ none
unfolding step spend_notice notify_one
notice_enabled_none n p e h q = cc (rw (e, h) at q)

at_rest-notices : (n : ℕ) (p : ThreadPool) → p.notices ≡ n → IsAtRest p → n ≡ 0
at_rest-notices zero p e rest = refl
at_rest-notices (suc n) p e rest = elim (total-find is_asleep p.workers) [
  | inl z ↦ absurd (notice_enabled_none n p e z (rest (notifies none) refl))
  | inr (i, w, h, pos) ↦
      absurd
        (notice_enabled_one i n p e (h ∙ ap some (wakes w pos)) (rest (notifies (some i)) refl))
]

at_rest-broadcasts : (n : ℕ) (p : ThreadPool) → p.broadcasts ≡ n → IsAtRest p → n ≡ 0
at_rest-broadcasts zero p e rest = refl
at_rest-broadcasts (suc n) p e rest = absurd (broadcast_enabled n p e (rest notifies_all refl))

running-le-active : (t : ℕ) (ws : List Worker) → total (is_running t) ws ≤ total is_active ws
unfolding total
running-le-active t [] = omega arith
running-le-active t (awake ∷ ws) = omega (arith, running-le-active t ws)
running-le-active t (asleep ∷ ws) = omega (arith, running-le-active t ws)
running-le-active t (done ∷ ws) = omega (arith, running-le-active t ws)
running-le-active t (running s ∷ ws) = ground (arith, running-le-active t ws)

make-IsTallied : (t n : ℕ) → IsTallied t (make n)
unfolding make count
make-IsTallied t n = omega (arith, total-replicate (is_running t) n refl)

-- Whatever was called and however the scheduler chose: when a pool with a worker can take no step of
-- its own, its queue is empty, every task that it accepted is finished, as often as it was
-- submitted, and if it was stopped all workers have returned, so that `stop` can join them.
pub at_rest-finished :
    (n : ℕ) (es : List Event) (p : ThreadPool)
    → 0 < n
    → run es (make n) ≡ some p
    → IsAtRest p
    → (p.tasks ≡ [])
      × ((t : ℕ) → count t p.finished ≡ count t p.submitted)
      × ((p.stop_flag ≡ false) ⊎ (total is_done p.workers ≡ length p.workers))
at_rest-finished n es p pos h rest =
    let v = run-IsValid es (make n) p (make-IsValid n pos) h in
    let idle = at_rest-inactive p rest in
    let quiet = at_rest-notices p.notices p refl rest in
    let silent = at_rest-broadcasts p.broadcasts p refl rest in
    let empty : p.tasks ≡ [] = ground (arith, v) in
    (
      empty,
      λ t. omega (
        arith,
        run-IsTallied t es (make n) p (make-IsTallied t n) h,
        running-le-active t p.workers,
        ap (count t) (sym (append-nil p.begun) ∙ ap (λ ts. p.begun ++ ts) (sym empty) ∙ v.fifo),
      ),
      ground (arith, v, parts p.workers),
    )
