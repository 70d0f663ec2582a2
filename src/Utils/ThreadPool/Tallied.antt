-- ===== src/Utils/ThreadPool/Tallied.antt =====
-- Where each task of a pool is: begun tasks are finished, or run.
use tzzero_http.Prelude.{
  ℕ, zero, suc, ◌+◌, ◌≡◌, inl, inr, refl, arith, Option, none, some, List, [], ◌∷◌, ◌++◌, get_elem?,
  ◌==◌, if◌then◌else◌, Option-cases, subst,
}
use tzzero_http.Utils.ThreadPool.{
  Worker, awake, asleep, done, running, ThreadPool, submit, stop, serve, turn, finish, wake,
  rouse_all, total, notify_one, notify_all, spend_notice, spend_broadcast, ◌>>=◌, Event, submits,
  stops, spurious, turns, finishes, notifies, notifies_all, step, run,
}
use tzzero_http.Utils.ThreadPool.Invariant.{some_injective}
use tzzero_http.Utils.ThreadPool.Progress.{notify_none-eq}
use tzzero_http.Utils.ThreadPool.Weights.{total-set}

-- How often a task stands in a list.
unfoldable pub count : ℕ → List ℕ → ℕ
count t [] = 0
count t (s ∷ ss) = (if s == t then 1 else 0) + count t ss

pub count-append : (t : ℕ) (xs ys : List ℕ) → count t (xs ++ ys) ≡ count t xs + count t ys
unfolding count
count-append t [] ys = omega arith
count-append t (x ∷ xs) ys = omega (arith, count-append t xs ys)

abbrev pub is_running : ℕ → Worker → ℕ
is_running t (running s) = if s == t then 1 else 0
is_running t _ = 0

-- A task that was begun is finished, or a worker runs it.
abbrev pub IsTallied : ℕ → ThreadPool → Type 0
IsTallied t p = count t p.begun ≡ count t p.finished + total (is_running t) p.workers

module _ (t : ℕ) where
  count-one : (s : ℕ) → count t (s ∷ []) ≡ (if s == t then 1 else 0)
  unfolding count
  count-one s = omega arith

  serve-IsTallied :
      (i : ℕ) (p : ThreadPool) (ts : List ℕ)
      → IsTallied t p
      → get_elem? p.workers i ≡ some awake
      → IsTallied t (serve i ts p)
  unfolding serve
  serve-IsTallied i p [] v h = ground (
    arith,
    total-set (is_running t) p.workers i awake done h,
    total-set (is_running t) p.workers i awake asleep h,
  )
  serve-IsTallied i p (s ∷ ts) v h = ground (
    arith,
    total-set (is_running t) p.workers i awake (running s) h,
    count-append t p.begun (s ∷ []),
    count-one s,
  )

  turn-IsTallied :
      (i : ℕ) (p p' : ThreadPool) (w : Option Worker)
      → IsTallied t p
      → get_elem? p.workers i ≡ w
      → turn i w p ≡ some p'
      → IsTallied t p'
  unfolding turn
  turn-IsTallied i p p' (some awake) v e h =
      subst (IsTallied t) (some_injective h) (serve-IsTallied i p p.tasks v e)
  turn-IsTallied i p p' (some asleep) v e h = absurd (cc)
  turn-IsTallied i p p' (some done) v e h = absurd (cc)
  turn-IsTallied i p p' (some (running s)) v e h = absurd (cc)
  turn-IsTallied i p p' none v e h = absurd (cc)

  finish-IsTallied :
      (i : ℕ) (p p' : ThreadPool) (w : Option Worker)
      → IsTallied t p
      → get_elem? p.workers i ≡ w
      → finish i w p ≡ some p'
      → IsTallied t p'
  unfolding finish
  finish-IsTallied i p p' (some (running s)) v e h = subst (IsTallied t) (some_injective h) (
      omega (
        arith,
        v,
        total-set (is_running t) p.workers i (running s) awake e,
        count-append t p.finished (s ∷ []),
        count-one s,
      ))
  finish-IsTallied i p p' (some awake) v e h = absurd (cc)
  finish-IsTallied i p p' (some asleep) v e h = absurd (cc)
  finish-IsTallied i p p' (some done) v e h = absurd (cc)
  finish-IsTallied i p p' none v e h = absurd (cc)

  wake-IsTallied :
      (i n : ℕ) (p p' : ThreadPool) (w : Option Worker)
      → IsTallied t p
      → get_elem? p.workers i ≡ w
      → wake i w (record p { notices = n }) ≡ some p'
      → IsTallied t p'
  unfolding wake
  wake-IsTallied i n p p' (some asleep) v e h =
      subst (IsTallied t) (some_injective h)
        (omega (arith, v, total-set (is_running t) p.workers i asleep awake e))
  wake-IsTallied i n p p' (some (running s)) v e h = absurd (cc)
  wake-IsTallied i n p p' (some awake) v e h = absurd (cc)
  wake-IsTallied i n p p' (some done) v e h = absurd (cc)
  wake-IsTallied i n p p' none v e h = absurd (cc)

  notifies-IsTallied :
      (who : Option ℕ) (n : ℕ) (p p' : ThreadPool)
      → IsTallied t p
      → (do q ← spend_notice n p; notify_one who q) ≡ some p'
      → IsTallied t p'
  unfolding spend_notice notify_one
  notifies-IsTallied who zero p p' v h = absurd (cc)
  notifies-IsTallied (some i) (suc n) p p' v h =
      wake-IsTallied i n p p' (get_elem? p.workers i) v refl h
  notifies-IsTallied none (suc n) p p' v h =
      subst (IsTallied t) (notify_none-eq (record p { notices = n }) p' h) v

  running-rouse_all :
      (ws : List Worker) → total (is_running t) (rouse_all ws) ≡ total (is_running t) ws
  unfolding rouse_all total
  running-rouse_all [] = refl
  running-rouse_all (awake ∷ ws) = omega (arith, running-rouse_all ws)
  running-rouse_all (asleep ∷ ws) = omega (arith, running-rouse_all ws)
  running-rouse_all (done ∷ ws) = omega (arith, running-rouse_all ws)
  running-rouse_all (running s ∷ ws) = omega (arith, running-rouse_all ws)

  notifies_all-IsTallied :
      (n : ℕ) (p p' : ThreadPool)
      → IsTallied t p
      → (do q ← spend_broadcast n p; some (notify_all q)) ≡ some p'
      → IsTallied t p'
  unfolding spend_broadcast notify_all
  notifies_all-IsTallied zero p p' v h = absurd (cc)
  notifies_all-IsTallied (suc n) p p' v h =
      subst (IsTallied t) (some_injective h) (omega (arith, v, running-rouse_all p.workers))

  step-IsTallied :
      (e : Event) (p p' : ThreadPool) → IsTallied t p → step e p ≡ some p' → IsTallied t p'
  unfolding step
  step-IsTallied (submits s) p p' v h = unfold submit in ground arith
  step-IsTallied stops p p' v h = unfold stop in ground arith
  step-IsTallied (spurious i) p p' v h =
      wake-IsTallied i p.notices p p' (get_elem? p.workers i) v refl h
  step-IsTallied (turns i) p p' v h = turn-IsTallied i p p' (get_elem? p.workers i) v refl h
  step-IsTallied (finishes i) p p' v h = finish-IsTallied i p p' (get_elem? p.workers i) v refl h
  step-IsTallied (notifies who) p p' v h = notifies-IsTallied who p.notices p p' v h
  step-IsTallied notifies_all p p' v h = notifies_all-IsTallied p.broadcasts p p' v h

  pub run-IsTallied :
      (es : List Event) (p p' : ThreadPool) → IsTallied t p → run es p ≡ some p' → IsTallied t p'
  unfolding run
  run-IsTallied [] p p' v h = subst (IsTallied t) (some_injective h) v
  run-IsTallied (e ∷ es) p p' v h = elim (Option-cases (step e p)) [
    | inl q ↦ absurd (cc (rw (q, run) at h))
    | inr (d, q) ↦ run-IsTallied es d p' (step-IsTallied e p d v q) (rw q at h)
  ]
