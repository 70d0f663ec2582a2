-- ===== src/Core/EventLoop/Wakeups.antt =====
-- What is queued and who wakes the loop, over every run of steps.
use tzzero_http.Prelude.{
  ℕ, zero, suc, ◌+◌, ◌<◌, ◌≡◌, ◌⊎◌, inl, inr, refl, arith, Bool, true, false, some, List, [], ◌∷◌,
  ◌++◌, append_assoc, append-nil, Option-cases, subst,
}
use tzzero_http.Core.EventLoop.{
  Phase, created, checking, polling, returned, handling, draining, EventLoop, make, queue_in_loop,
  queue_all, queue_from_outside, quit_from_outside, write_from_outside, start, check, Answer,
  active, interrupted, failed, poll, call_wake_up, callback_queues, callback_quits,
  quit_from_signal, swap_pending, run_functor, run_in_loop, callback_runs, Event, queues_outside,
  quits_outside, writes_outside, starts, checks, wakes, callback_quit, signal_quit, swaps,
  runs_functor, callback_queue, polls, step, run,
}

-- The functors that the loop took and has still to run.
abbrev pub taken : Phase → List ℕ
taken (draining fs) = fs
taken _ = []

-- Whether the callbacks of a round are running; what they find pending is taken in the same round.
abbrev is_handling : Phase → Bool
is_handling (handling woken) = true
is_handling _ = false

abbrev is_polling : Phase → Bool
is_polling polling = true
is_polling _ = false

-- A wake-up is there, or a thread is about to make it.
abbrev pub WillWake : EventLoop → Type 0
WillWake l = 0 < l.counter + l.writers

pub record IsAwaited (l : EventLoop) : Type 0 where
  pub in_order : l.ran ++ (taken l.phase ++ l.pending) ≡ l.queued
  pub woken : (is_handling l.phase ≡ true) ⊎ (l.pending ≡ []) ⊎ WillWake l
  pub told : (is_polling l.phase ≡ false) ⊎ (l.quit ≡ false) ⊎ WillWake l ⊎ (l.signalled ≡ true)

pub make-IsAwaited : IsAwaited make
unfolding make
make-IsAwaited = ground arith

queue_in_loop-IsAwaited : (f : ℕ) (l : EventLoop) → IsAwaited l → IsAwaited (queue_in_loop f l)
unfolding queue_in_loop
queue_in_loop-IsAwaited f l v = ground (
  arith,
  append_assoc l.ran (taken l.phase ++ l.pending) (f ∷ []),
  append_assoc (taken l.phase) l.pending (f ∷ []),
)

queue_all-IsAwaited : (fs : List ℕ) (l : EventLoop) → IsAwaited l → IsAwaited (queue_all fs l)
unfolding queue_all
queue_all-IsAwaited [] l v = v
queue_all-IsAwaited (f ∷ fs) l v =
    queue_all-IsAwaited fs (queue_in_loop f l) (queue_in_loop-IsAwaited f l v)

queue_from_outside-IsAwaited :
    (f : ℕ) (l : EventLoop) → IsAwaited l → IsAwaited (queue_from_outside f l)
unfolding queue_from_outside
queue_from_outside-IsAwaited f l v = ground (
  arith,
  append_assoc l.ran (taken l.phase ++ l.pending) (f ∷ []),
  append_assoc (taken l.phase) l.pending (f ∷ []),
)

some_injective : {a b : EventLoop} → some a ≡ some b → a ≡ b
some_injective h = cc

write-IsAwaited :
    (n : ℕ) (l l' : EventLoop)
    → IsAwaited l
    → l.writers ≡ n
    → write_from_outside n l ≡ some l'
    → IsAwaited l'
unfolding write_from_outside
write-IsAwaited zero l l' v e h = absurd (cc)
write-IsAwaited (suc n) l l' v e h = ground arith

start-IsAwaited :
    (ph : Phase) (l l' : EventLoop)
    → IsAwaited l
    → l.phase ≡ ph
    → start ph l ≡ some l'
    → IsAwaited l'
unfolding start
start-IsAwaited created l l' v e h = ground arith
start-IsAwaited checking l l' v e h = absurd (cc)
start-IsAwaited polling l l' v e h = absurd (cc)
start-IsAwaited returned l l' v e h = absurd (cc)
start-IsAwaited (handling w) l l' v e h = absurd (cc)
start-IsAwaited (draining fs) l l' v e h = absurd (cc)

check-IsAwaited :
    (ph : Phase) (l l' : EventLoop)
    → IsAwaited l
    → l.phase ≡ ph
    → check ph l ≡ some l'
    → IsAwaited l'
unfolding check
check-IsAwaited checking l l' v e h = ground arith
check-IsAwaited created l l' v e h = absurd (cc)
check-IsAwaited polling l l' v e h = absurd (cc)
check-IsAwaited returned l l' v e h = absurd (cc)
check-IsAwaited (handling w) l l' v e h = absurd (cc)
check-IsAwaited (draining fs) l l' v e h = absurd (cc)

poll-IsAwaited :
    (a : Answer) (ph : Phase) (l l' : EventLoop)
    → IsAwaited l
    → l.phase ≡ ph
    → poll a ph l ≡ some l'
    → IsAwaited l'
unfolding poll
poll-IsAwaited (active w) polling l l' v e h = ground arith
poll-IsAwaited interrupted polling l l' v e h = ground arith
poll-IsAwaited failed polling l l' v e h = ground arith
poll-IsAwaited a created l l' v e h = absurd (cc)
poll-IsAwaited a checking l l' v e h = absurd (cc)
poll-IsAwaited a returned l l' v e h = absurd (cc)
poll-IsAwaited a (handling w) l l' v e h = absurd (cc)
poll-IsAwaited a (draining fs) l l' v e h = absurd (cc)

call_wake_up-IsAwaited :
    (ph : Phase) (l l' : EventLoop)
    → IsAwaited l
    → l.phase ≡ ph
    → call_wake_up ph l ≡ some l'
    → IsAwaited l'
unfolding call_wake_up
call_wake_up-IsAwaited (handling true) l l' v e h = ground arith
call_wake_up-IsAwaited (handling false) l l' v e h = absurd (cc)
call_wake_up-IsAwaited created l l' v e h = absurd (cc)
call_wake_up-IsAwaited checking l l' v e h = absurd (cc)
call_wake_up-IsAwaited polling l l' v e h = absurd (cc)
call_wake_up-IsAwaited returned l l' v e h = absurd (cc)
call_wake_up-IsAwaited (draining fs) l l' v e h = absurd (cc)

swap-IsAwaited :
    (ph : Phase) (l l' : EventLoop)
    → IsAwaited l
    → l.phase ≡ ph
    → swap_pending ph l ≡ some l'
    → IsAwaited l'
unfolding swap_pending
swap-IsAwaited (handling false) l l' v e h = ground (arith, append-nil l.pending)
swap-IsAwaited (handling true) l l' v e h = absurd (cc)
swap-IsAwaited created l l' v e h = absurd (cc)
swap-IsAwaited checking l l' v e h = absurd (cc)
swap-IsAwaited polling l l' v e h = absurd (cc)
swap-IsAwaited returned l l' v e h = absurd (cc)
swap-IsAwaited (draining fs) l l' v e h = absurd (cc)

module _ (spawns : ℕ → List ℕ) where
  run_functor-IsAwaited :
      (ph : Phase) (l l' : EventLoop)
      → IsAwaited l
      → l.phase ≡ ph
      → run_functor spawns ph l ≡ some l'
      → IsAwaited l'
  unfolding run_functor
  run_functor-IsAwaited (draining []) l l' v e h = ground arith
  run_functor-IsAwaited (draining (f ∷ fs)) l l' v e h = subst IsAwaited (some_injective h) (
      queue_all-IsAwaited (spawns f) (record l { phase = draining fs; ran = l.ran ++ f ∷ [] })
        (ground (arith, append_assoc l.ran (f ∷ []) (fs ++ l.pending))))
  run_functor-IsAwaited (handling w) l l' v e h = absurd (cc)
  run_functor-IsAwaited created l l' v e h = absurd (cc)
  run_functor-IsAwaited checking l l' v e h = absurd (cc)
  run_functor-IsAwaited polling l l' v e h = absurd (cc)
  run_functor-IsAwaited returned l l' v e h = absurd (cc)

  callback-IsAwaited :
      (f : ℕ) (l l' : EventLoop) → IsAwaited l → callback_queues f l ≡ some l' → IsAwaited l'
  unfolding callback_queues
  callback-IsAwaited f l l' v h = ground (arith, queue_in_loop-IsAwaited f l v)

  run_in_loop-IsAwaited :
      (f : ℕ) (l l' : EventLoop) → IsAwaited l → run_in_loop spawns f l ≡ some l' → IsAwaited l'
  unfolding run_in_loop
  run_in_loop-IsAwaited f l l' v h = ground (arith, queue_all-IsAwaited (spawns f) l v)

  callback_quits-IsAwaited :
      (l l' : EventLoop) → IsAwaited l → callback_quits l ≡ some l' → IsAwaited l'
  unfolding callback_quits
  callback_quits-IsAwaited l l' v h = ground arith

  step-IsAwaited :
      (e : Event) (l l' : EventLoop) → IsAwaited l → step spawns e l ≡ some l' → IsAwaited l'
  unfolding step
  step-IsAwaited (queues_outside f) l l' v h =
      subst IsAwaited (some_injective h) (queue_from_outside-IsAwaited f l v)
  step-IsAwaited quits_outside l l' v h = unfold quit_from_outside in ground arith
  step-IsAwaited writes_outside l l' v h = write-IsAwaited l.writers l l' v refl h
  step-IsAwaited starts l l' v h = start-IsAwaited l.phase l l' v refl h
  step-IsAwaited checks l l' v h = check-IsAwaited l.phase l l' v refl h
  step-IsAwaited (polls a) l l' v h = poll-IsAwaited a l.phase l l' v refl h
  step-IsAwaited wakes l l' v h = call_wake_up-IsAwaited l.phase l l' v refl h
  step-IsAwaited (callback_queue f) l l' v h = callback-IsAwaited f l l' v h
  step-IsAwaited (callback_runs f) l l' v h = run_in_loop-IsAwaited f l l' v h
  step-IsAwaited callback_quit l l' v h = callback_quits-IsAwaited l l' v h
  step-IsAwaited signal_quit l l' v h = unfold quit_from_signal in ground arith
  step-IsAwaited swaps l l' v h = swap-IsAwaited l.phase l l' v refl h
  step-IsAwaited runs_functor l l' v h = run_functor-IsAwaited l.phase l l' v refl h

  -- In every run from an awaited loop, such as a new one, whatever the threads do and in whatever
  -- order: the queued functors run in the order in which they were queued, each once; and while the
  -- loop is at `poll` with a functor pending or with the quit flag set, the wake-up descriptor is
  -- readable or a thread is about to write to it, except that a quit flag may go without where a
  -- signal handler called `quit` on the loop's own thread since `loop` was entered.
  pub run-IsAwaited :
      (es : List Event) (l l' : EventLoop) → IsAwaited l → run spawns es l ≡ some l' → IsAwaited l'
  unfolding run
  run-IsAwaited [] l l' v h = subst IsAwaited (some_injective h) v
  run-IsAwaited (e ∷ es) l l' v h = elim (Option-cases (step spawns e l)) [
    | inl q ↦ absurd (cc (rw (q, run) at h))
    | inr (d, q) ↦ run-IsAwaited es d l' (step-IsAwaited e l d v q) (rw (q, run) at h)
  ]

-- A `quit` that another thread calls before the loop's thread has entered `loop` is lost: the loop
-- goes on to `poll`, with the flag cleared.
pub quit_before_start :
    (spawns : ℕ → List ℕ) (l : EventLoop)
    → l.phase ≡ created
    → run spawns (quits_outside ∷ starts ∷ checks ∷ []) l
      ≡ some
          (record l { phase = polling; quit = false; signalled = false; writers = suc l.writers })
unfolding run step quit_from_outside start check
quit_before_start spawns l e = rw e refl
