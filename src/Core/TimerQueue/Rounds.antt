-- ===== src/Core/TimerQueue/Rounds.antt =====
-- A round of the timers: `process_expired_timers`.
use tzzero_http.Prelude.{
  ℕ, ◌+◌, ◌≤◌, ◌≡◌, ◌⊎◌, inl, inr, refl, sym, ◌∙◌, arith, Bool, true, false, Bool-cases, Option,
  List, [], ◌∷◌, ◌++◌, if◌then◌else◌, append-nil, append_assoc,
}
use tzzero_http.Core.TimerQueue.{
  sequences, Timer, TimerQueue, restart, due, not_due, get_expired, insert_entry, insert,
  cancel_timer, add_timer, act, Action, adds, cancels, elsewhere, raise, run_expired, reinsert,
  reset, process_expired_timers,
}
use tzzero_http.Core.TimerQueue.Expiry.{AllDue, NoneDue, due_splits}
use tzzero_http.Core.TimerQueue.Sets.{
  occurrences, IsValid, occurrences-insert_entry, get_expired-IsValid, cancel_timer_lem,
  add_timer-IsValid, raise-IsValid, insert-IsValid,
}

-- The timers that fire again.
unfoldable pub periodic : List Timer → List Timer
periodic [] = []
periodic (t ∷ ts) = if t.repeats then t ∷ periodic ts else periodic ts

pub restart-sequence : (now : ℕ) (t : Timer) → (restart now t).sequence ≡ t.sequence
unfolding restart
restart-sequence now t = ground arith

-- A timer that is not put back but deleted.
pub drop-IsValid :
    (t : Timer) (taken : List Timer) (q : TimerQueue) (freed : List ℕ)
    → IsValid (t ∷ taken) q
    → IsValid taken (record q { freed = freed })
unfolding occurrences
drop-IsValid t taken q freed v = record {
  sorted = v.sorted;
  same = v.same;
  once = λ s. ground (arith, v.once s);
  given = λ s l. ground (arith, v.given s l);
}

-- What is noted of the callbacks and the descriptor does not concern the sets.
pub noted-IsValid :
    (taken : List Timer) (q : TimerQueue) (fs : List ℕ) (armed : Option ℕ)
    → IsValid taken q
    → IsValid taken (record q { fired = fs; armed = armed })
noted-IsValid taken q fs armed v = record {
  sorted = v.sorted;
  same = v.same;
  once = v.once;
  given = v.given;
}

pub restart-IsValid :
    (now : ℕ) (t : Timer) (taken : List Timer) (q : TimerQueue)
    → IsValid (t ∷ taken) q
    → IsValid (restart now t ∷ taken) q
unfolding occurrences
restart-IsValid now t taken q v = record {
  sorted = v.sorted;
  same = v.same;
  once = λ s. ground (arith, v.once s, restart-sequence now t);
  given = λ s l. ground (arith, v.given s l, restart-sequence now t);
}

module _ (before : Timer → Timer → Bool) where
  act-IsValid :
      (taken : List Timer) (as_ : List Action) (q : TimerQueue)
      → IsValid taken q
      → IsValid taken (act before as_ q) × ((act before as_ q).fired ≡ q.fired)
  unfolding act raise
  act-IsValid taken [] q v = (v, refl)
  act-IsValid taken (adds now when interval callback ∷ as_) q v =
      act-IsValid taken as_ (add_timer before now when interval callback q).0
        (add_timer-IsValid before taken now when interval callback q v)
  act-IsValid taken (elsewhere n ∷ as_) q v =
      act-IsValid taken as_ (raise n q) (raise-IsValid taken n q v)
  act-IsValid taken (cancels s ∷ as_) q v =
      let (w, none_left, others, kept) = cancel_timer_lem taken s q v in
      let (x, f) = act-IsValid taken as_ (cancel_timer s q) w in (x, f ∙ kept)

  run_expired-IsValid :
      (taken : List Timer) (acts : ℕ → List Action) (ts : List Timer) (q : TimerQueue)
      → IsValid taken q
      → IsValid taken (run_expired before acts ts q)
        × ((run_expired before acts ts q).fired ≡ q.fired ++ sequences ts)
  unfolding run_expired
  run_expired-IsValid taken acts [] q v = (v, sym (append-nil q.fired))
  run_expired-IsValid taken acts (t ∷ ts) q v =
      let called = record q { fired = q.fired ++ t.sequence ∷ [] } in
      let (w, f) =
        act-IsValid taken (acts t.callback) called
          (noted-IsValid taken q (q.fired ++ t.sequence ∷ []) q.armed v) in
      let (x, g) = run_expired-IsValid taken acts ts (act before (acts t.callback) called) w in
      (x, cc (f, g, append_assoc q.fired (t.sequence ∷ []) (sequences ts)))

  pub occurrences-back :
      (now s : ℕ) (t : Timer) (ts : List Timer)
      → occurrences s (insert_entry before (restart now t) ts) ≡ occurrences s (t ∷ ts)
  unfolding occurrences
  occurrences-back now s t ts =
      ground (arith, occurrences-insert_entry before s (restart now t) ts, restart-sequence now t)

  pub reinsert-back :
      (now : ℕ) (t : Timer) (ts : List Timer) (q : TimerQueue)
      → t.repeats ≡ true
      → reinsert before now (t ∷ ts) q ≡ reinsert before now ts (insert before (restart now t) q)
  unfolding reinsert
  reinsert-back now t ts q e = ground (arith, e)

  pub reinsert-dropped :
      (now : ℕ) (t : Timer) (ts : List Timer) (q : TimerQueue)
      → t.repeats ≡ false
      → reinsert before now (t ∷ ts) q
        ≡ reinsert before now ts (record q { freed = q.freed ++ t.sequence ∷ [] })
  unfolding reinsert
  reinsert-dropped now t ts q e = ground (arith, e)

  -- The periodic timers go back, and the sets hold nothing else more than before.
  reinsert-IsValid :
      (now : ℕ) (ts : List Timer) (q : TimerQueue)
      → IsValid ts q
      → IsValid [] (reinsert before now ts q)
        × ((reinsert before now ts q).fired ≡ q.fired)
        × ((s : ℕ)
            → occurrences s (reinsert before now ts q).timers
              ≡ occurrences s (periodic ts) + occurrences s q.timers)
  unfolding insert reinsert occurrences periodic
  reinsert-IsValid now [] q v = (v, refl, λ s. omega arith)
  reinsert-IsValid now (t ∷ ts) q v = elim (Bool-cases t.repeats) [
    | inl e ↦
        let (w, f, c) =
          reinsert-IsValid now ts (insert before (restart now t) q)
            (insert-IsValid before ts (restart now t) q (restart-IsValid now t ts q v)) in
        rw (reinsert-back now t ts q e)
          (w, f, λ s. ground (arith, e, c s, occurrences-back now s t q.timers))
    | inr e ↦
        let (w, f, c) =
          reinsert-IsValid now ts (record q { freed = q.freed ++ t.sequence ∷ [] })
            (drop-IsValid t ts q (q.freed ++ t.sequence ∷ []) v) in
        rw (reinsert-dropped now t ts q e) (w, f, λ s. ground (arith, e, c s))
  ]

  back : (a b c d : ℕ) → a + b ≤ 1 → d ≡ c + b → (a ≡ 0) ⊎ (d ≡ c)
  back a b c d h e = ground arith

  -- A round whose callbacks return, whatever they ask of the queue: both sets stay in step, sorted and without a timer twice;
  -- exactly the timers that were due are called, in order of expiration; and of these the
  -- periodic ones are in the sets again, and the others are not.
  pub process_expired_timers-IsValid :
      (acts : ℕ → List Action) (now : ℕ) (q : TimerQueue)
      → IsValid [] q
      → IsValid [] (process_expired_timers before acts now q)
        × ((process_expired_timers before acts now q).fired
            ≡ q.fired ++ sequences (due now q.timers))
        × (q.timers ≡ due now q.timers ++ not_due now q.timers)
        × AllDue now (due now q.timers)
        × NoneDue now (not_due now q.timers)
        × ((s : ℕ)
            → (occurrences s (due now q.timers) ≡ 0)
              ⊎ (occurrences s (process_expired_timers before acts now q).timers
                  ≡ occurrences s (periodic (due now q.timers))))
  unfolding process_expired_timers get_expired reset
  process_expired_timers-IsValid acts now q v =
      let expired = due now q.timers in
      let (w, f) =
        run_expired-IsValid expired acts expired (get_expired now q).1
          (get_expired-IsValid now q v) in
      let (x, g, c) =
        reinsert-IsValid now expired (run_expired before acts expired (get_expired now q).1) w in
      let (whole, all, no_others) = due_splits now q.timers v.sorted in
      (
        noted-IsValid [] _ _ _ x,
        g ∙ f,
        sym whole,
        all,
        no_others,
        λ s. back _ _ _ _ (w.once s) (c s),
      )
