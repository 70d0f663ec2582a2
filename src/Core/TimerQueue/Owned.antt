-- ===== src/Core/TimerQueue/Owned.antt =====
-- Each timer is in the sets, or taken out by a round, or deleted, or lost.
use tzzero_http.Prelude.{
  ℕ, suc, ◌+◌, ◌≤◌, ◌≡◌, ◌<◌, inl, inr, refl, ap, arith, take, length, Bool, ◌==◌, ltb, Bool-cases,
  Option, List, [], ◌∷◌, ◌++◌, if◌then◌else◌,
}
use tzzero_http.Core.TimerQueue.{
  Timer, TimerQueue, make, new_timer, restart, due, get_expired, insert, cancel_timer,
  add_timer_in_loop, add_timer, act, Action, adds, cancels, elsewhere, raise, break_off,
  run_expired, reinsert, reset, process_expired_timers, sequences,
}
use tzzero_http.Core.TimerQueue.Rounds.{
  drop-IsValid, restart-IsValid, noted-IsValid, reinsert-back, reinsert-dropped, occurrences-back,
}
use tzzero_http.Core.TimerQueue.Sets.{
  occurrences, IsValid, make-IsValid, occurrences-erase, occurrences-due, find_sequence-cases,
  get_expired-IsValid, cancel_timer_lem, occurrences-insert_entry, insert-IsValid,
  add_timer-IsValid, raise-IsValid,
}

unfoldable pub count : ℕ → List ℕ → ℕ
count s [] = 0
count s (r ∷ rs) = if r == s then suc (count s rs) else count s rs

pub count-append : (s : ℕ) (rs ts : List ℕ) → count s (rs ++ ts) ≡ count s rs + count s ts
unfolding count
count-append s [] ts = omega arith
count-append s (r ∷ rs) ts = ground (arith, count-append s rs ts)

pub count-sequences : (s : ℕ) (ts : List Timer) → count s (sequences ts) ≡ occurrences s ts
unfolding count occurrences
count-sequences s [] = refl
count-sequences s (t ∷ ts) = ground (arith, count-sequences s ts)

-- Each timer that the queue has made is in the sets, or with those that the round has taken out, or was
-- deleted, or is with those that a round has lost, and this once; and nothing else is. The numbers to
-- come are free.
pub record IsOwned (lost : List ℕ) (taken : List Timer) (q : TimerQueue) : Type 0 where
  pub valid : IsValid taken q
  pub left : q.lost ≡ lost
  pub owned :
      (s : ℕ)
      → occurrences s taken + occurrences s q.timers + count s q.freed + count s q.lost
        ≡ count s q.made
  pub once : (s : ℕ) → count s q.made ≤ 1
  pub free : (s : ℕ) → q.created < s → count s q.made ≡ 0

pub make-IsOwned : (created : ℕ) → IsOwned [] [] (make created)
unfolding make occurrences count
make-IsOwned created = record {
  valid = make-IsValid created;
  left = refl;
  owned = λ s. refl;
  once = λ s. omega arith;
  free = λ s l. refl;
}

pub cancel_timer-IsOwned :
    (lost : List ℕ) (taken : List Timer) (s : ℕ) (q : TimerQueue)
    → IsOwned lost taken q
    → IsOwned lost taken (cancel_timer s q)
unfolding cancel_timer count
cancel_timer-IsOwned lost taken s q v = elim (find_sequence-cases s q.active_timers) [
  | inl (e, n) ↦ rw (cancel_timer, e) v
  | inr (t, e, l, some_) ↦ record {
    valid = (cancel_timer_lem taken s q v.valid).0;
    left = rw (cancel_timer, e) v.left;
    once = rw (cancel_timer, e) v.once;
    free = rw (cancel_timer, e) v.free;
    owned = λ r.
        rw (cancel_timer, e)
          (ground (
            arith,
            l,
            some_,
            v.owned r,
            v.valid.same r,
            occurrences-erase r t.sequence q.timers,
            count-append r q.freed (t.sequence ∷ []),
          ));
  }
]

get_expired-IsOwned :
    (lost : List ℕ) (now : ℕ) (q : TimerQueue)
    → IsOwned lost [] q
    → IsOwned lost (due now q.timers) (get_expired now q).1
unfolding get_expired occurrences
get_expired-IsOwned lost now q v = record {
  valid = get_expired-IsValid now q v.valid;
  left = v.left;
  once = v.once;
  free = v.free;
  owned = λ s. omega (arith, v.owned s, occurrences-due now s q.timers);
}

pub raise-IsOwned :
    (lost : List ℕ) (taken : List Timer) (n : ℕ) (q : TimerQueue)
    → IsOwned lost taken q
    → IsOwned lost taken (raise n q)
unfolding raise
raise-IsOwned lost taken n q v = record {
  valid = raise-IsValid taken n q v.valid;
  left = v.left;
  owned = v.owned;
  once = v.once;
  free = λ s l. v.free s (omega (arith, l));
}

-- The timers that a round had taken out, when it is broken off.
lose-IsOwned :
    (lost : List ℕ) (taken : List Timer) (q : TimerQueue)
    → IsOwned lost taken q
    → IsOwned (lost ++ sequences taken) [] (record q { lost = q.lost ++ sequences taken })
unfolding occurrences
lose-IsOwned lost taken q v = record {
  valid = record {
    sorted = v.valid.sorted;
    same = v.valid.same;
    once = λ s. omega (arith, v.valid.once s);
    given = λ s l. omega (arith, v.valid.given s l);
  };
  left = ap (λ l. l ++ sequences taken) v.left;
  owned = λ s.
      omega (arith, v.owned s, count-append s q.lost (sequences taken), count-sequences s taken);
  once = v.once;
  free = v.free;
}

noted-IsOwned :
    (lost : List ℕ) (taken : List Timer) (q : TimerQueue) (fs : List ℕ) (armed : Option ℕ)
    → IsOwned lost taken q
    → IsOwned lost taken (record q { fired = fs; armed = armed })
noted-IsOwned lost taken q fs armed v = record {
  valid = noted-IsValid taken q fs armed v.valid;
  left = v.left;
  once = v.once;
  free = v.free;
  owned = v.owned;
}

module _ (before : Timer → Timer → Bool) (lost : List ℕ) where
  pub add_timer-IsOwned :
      (taken : List Timer) (now when interval callback : ℕ) (q : TimerQueue)
      → IsOwned lost taken q
      → IsOwned lost taken (add_timer before now when interval callback q).0
  unfolding add_timer add_timer_in_loop insert new_timer occurrences count
  add_timer-IsOwned taken now when interval callback q v = record {
    valid = add_timer-IsValid before taken now when interval callback q v.valid;
    left = v.left;
    once = λ s. ground (arith, v.once s, v.free s, count-append s q.made (suc q.created ∷ []));
    free = λ s l. ground (arith, v.free s, count-append s q.made (suc q.created ∷ []));
    owned = λ s. ground (
      arith,
      v.owned s,
      count-append s q.made (suc q.created ∷ []),
      occurrences-insert_entry before s (new_timer (now + when) interval callback q.created)
          q.timers,
    );
  }

  act-IsOwned :
      (taken : List Timer) (as_ : List Action) (q : TimerQueue)
      → IsOwned lost taken q
      → IsOwned lost taken (act before as_ q)
  unfolding act raise
  act-IsOwned taken [] q v = v
  act-IsOwned taken (adds now when interval callback ∷ as_) q v =
      act-IsOwned taken as_ (add_timer before now when interval callback q).0
        (add_timer-IsOwned taken now when interval callback q v)
  act-IsOwned taken (elsewhere n ∷ as_) q v =
      act-IsOwned taken as_ (raise n q) (raise-IsOwned lost taken n q v)
  act-IsOwned taken (cancels s ∷ as_) q v =
      act-IsOwned taken as_ (cancel_timer s q) (cancel_timer-IsOwned lost taken s q v)

  run_expired-IsOwned :
      (taken : List Timer) (acts : ℕ → List Action) (ts : List Timer) (q : TimerQueue)
      → IsOwned lost taken q
      → IsOwned lost taken (run_expired before acts ts q)
  unfolding run_expired
  run_expired-IsOwned taken acts [] q v = v
  run_expired-IsOwned taken acts (t ∷ ts) q v =
      let called = record q { fired = q.fired ++ t.sequence ∷ [] } in
      run_expired-IsOwned taken acts ts (act before (acts t.callback) called) (
        act-IsOwned taken (acts t.callback) called
          (noted-IsOwned lost taken q (q.fired ++ t.sequence ∷ []) q.armed v))

  reinsert-IsOwned :
      (now : ℕ) (ts : List Timer) (q : TimerQueue)
      → IsOwned lost ts q
      → IsOwned lost [] (reinsert before now ts q)
  unfolding reinsert insert occurrences count
  reinsert-IsOwned now [] q v = v
  reinsert-IsOwned now (t ∷ ts) q v = elim (Bool-cases t.repeats) [
    | inl e ↦ rw (reinsert-back before now t ts q e) (
        reinsert-IsOwned now ts (insert before (restart now t) q) record {
          valid = insert-IsValid before ts (restart now t) q (restart-IsValid now t ts q v.valid);
          left = v.left;
          once = v.once;
          free = v.free;
          owned = λ s. ground (arith, v.owned s, occurrences-back before now s t q.timers);
        })
    | inr e ↦ rw (reinsert-dropped before now t ts q e) (
        reinsert-IsOwned now ts (record q { freed = q.freed ++ t.sequence ∷ [] })
          record {
            valid = drop-IsValid t ts q (q.freed ++ t.sequence ∷ []) v.valid;
            left = v.left;
            once = v.once;
            free = v.free;
            owned = λ s. ground (arith, v.owned s, count-append s q.freed (t.sequence ∷ []));
          })
  ]

  pub process_expired_timers-IsOwned :
      (acts : ℕ → List Action) (now : ℕ) (q : TimerQueue)
      → IsOwned lost [] q
      → IsOwned lost [] (process_expired_timers before acts now q)
  unfolding process_expired_timers reset get_expired
  process_expired_timers-IsOwned acts now q v =
      let expired = due now q.timers in
      let called =
        run_expired-IsOwned expired acts expired (get_expired now q).1
          (get_expired-IsOwned lost now q v) in
      noted-IsOwned lost [] _ _ _ (
        reinsert-IsOwned now expired (run_expired before acts expired (get_expired now q).1) called)

  pub break_off-IsOwned :
      (acts : ℕ → List Action) (k now : ℕ) (q : TimerQueue)
      → IsOwned lost [] q
      → (l : List ℕ) × IsOwned l [] (break_off before acts k now q)
  unfolding break_off get_expired
  break_off-IsOwned acts k now q v = elim (Bool-cases (ltb k (length (due now q.timers)))) [
    | inl e ↦
        let expired = due now q.timers in
        let called =
          run_expired-IsOwned expired acts (take (suc k) expired) (get_expired now q).1
            (get_expired-IsOwned lost now q v) in
        rw (e, break_off) (lost ++ sequences expired, lose-IsOwned lost expired _ called)
    | inr e ↦ rw (e, break_off) (lost, process_expired_timers-IsOwned acts now q v)
  ]
