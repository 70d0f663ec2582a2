-- ===== src/Core/TimerQueue/Sets.antt =====
-- The two sets of timers, counted by sequence number.
use tzzero_http.Prelude.{
  ℕ, suc, ◌+◌, ◌-◌, ◌≤◌, ◌<◌, ◌≡◌, ◌≢◌, ◌⊎◌, inl, inr, refl, arith, Bool, ◌==◌, Bool-cases, none,
  some, List, [], ◌∷◌, ◌++◌, if◌then◌else◌,
}
use tzzero_http.Core.TimerQueue.{
  Timer, TimerQueue, make, new_timer, due, not_due, get_expired, insert_entry, insert, erase,
  erase_all, find_sequence, cancel_timer, add_timer_in_loop, add_timer, raise,
}
use tzzero_http.Core.TimerQueue.Expiry.{
  IsSorted, insert_entry-IsSorted, erase-IsSorted, not_due-IsSorted,
}

unfoldable pub occurrences : ℕ → List Timer → ℕ
occurrences s [] = 0
occurrences s (t ∷ ts) = if t.sequence == s then suc (occurrences s ts) else occurrences s ts

-- The timers are sorted, the two sets hold the same ones, and no sequence number is given twice,
-- with the timers that the round has taken out of the sets.
pub record IsValid (taken : List Timer) (q : TimerQueue) : Type 0 where
  pub sorted : IsSorted q.timers
  pub same : (s : ℕ) → occurrences s q.timers ≡ occurrences s q.active_timers
  pub once : (s : ℕ) → occurrences s taken + occurrences s q.timers ≤ 1
  pub given : (s : ℕ) → q.created < s → occurrences s taken + occurrences s q.timers ≡ 0

pub occurrences-erase :
    (s r : ℕ) (ts : List Timer)
    → ((r ≡ s) × (occurrences s (erase r ts) ≡ occurrences s ts - 1))
      ⊎ ((r ≢ s) × (occurrences s (erase r ts) ≡ occurrences s ts))
unfolding occurrences erase
occurrences-erase s r [] = ground arith
occurrences-erase s r (t ∷ ts) = ground (arith, occurrences-erase s r ts)

pub occurrences-due :
    (now s : ℕ) (ts : List Timer)
    → occurrences s (due now ts) + occurrences s (not_due now ts) ≡ occurrences s ts
unfolding occurrences due not_due
occurrences-due now s [] = refl
occurrences-due now s (t ∷ ts) = ground (arith, occurrences-due now s ts)

occurrences-erase_all :
    (s : ℕ) (xs ts : List Timer)
    → occurrences s (erase_all xs ts) ≡ occurrences s ts - occurrences s xs
unfolding occurrences erase_all
occurrences-erase_all s [] ts = omega arith
occurrences-erase_all s (x ∷ xs) ts =
    ground
      (arith, occurrences-erase_all s xs (erase x.sequence ts), occurrences-erase s x.sequence ts)

pub find_sequence-cases :
    (s : ℕ) (ts : List Timer)
    → ((find_sequence s ts ≡ none) × (occurrences s ts ≡ 0))
      ⊎ ((t : Timer) × (find_sequence s ts ≡ some t) × (t.sequence ≡ s) × (0 < occurrences s ts))
unfolding occurrences find_sequence
find_sequence-cases s [] = inl (refl, refl)
find_sequence-cases s (t ∷ ts) = elim (Bool-cases (t.sequence == s)) [
  | inl e ↦ rw e (inr (t, refl, ground (arith, e), omega arith))
  | inr e ↦ rw e (find_sequence-cases s ts)
]

pub get_expired-IsValid :
    (now : ℕ) (q : TimerQueue) → IsValid [] q → IsValid (due now q.timers) (get_expired now q).1
unfolding get_expired occurrences
get_expired-IsValid now q v = record {
  sorted = not_due-IsSorted now q.timers v.sorted;
  same = λ s. omega (
    arith,
    v.same s,
    occurrences-due now s q.timers,
    occurrences-erase_all s (due now q.timers) q.active_timers,
  );
  once = λ s. omega (arith, v.once s, occurrences-due now s q.timers);
  given = λ s l. omega (arith, v.given s l, occurrences-due now s q.timers);
}

-- In a valid queue the timer with the number is taken from both sets, if it is there, and no other
-- one; the queue stays valid, and no callback is called.
pub cancel_timer_lem :
    (taken : List Timer) (s : ℕ) (q : TimerQueue)
    → IsValid taken q
    → IsValid taken (cancel_timer s q)
      × (occurrences s (cancel_timer s q).timers ≡ 0)
      × ((r : ℕ) → s ≢ r → occurrences r (cancel_timer s q).timers ≡ occurrences r q.timers)
      × ((cancel_timer s q).fired ≡ q.fired)
unfolding cancel_timer
cancel_timer_lem taken s q v = elim (find_sequence-cases s q.active_timers) [
  | inl (e, n) ↦ rw (cancel_timer, e) (v, omega (arith, v.same s), (λ r d. refl), refl)
  | inr (t, e, l, some_) ↦
      rw (cancel_timer, e, l)
        (
          record {
            sorted = erase-IsSorted s q.timers v.sorted;
            same = λ r. ground (
              arith,
              v.same r,
              occurrences-erase r s q.timers,
              occurrences-erase r s q.active_timers,
            );
            once = λ r. ground (arith, v.once r, occurrences-erase r s q.timers);
            given = λ r h. ground (arith, v.given r h, occurrences-erase r s q.timers);
          },
          ground (arith, v.once s, occurrences-erase s s q.timers),
          (λ r d. ground (arith, occurrences-erase r s q.timers)),
          refl,
        )
]

new_timer-IsValid :
    (taken : List Timer) (when interval callback : ℕ) (q : TimerQueue) (made : List ℕ)
    → IsValid taken q
    → IsValid
        (new_timer when interval callback q.created ∷ taken)
        (record q { created = suc q.created; made = made })
unfolding new_timer occurrences
new_timer-IsValid taken when interval callback q made v = record {
  sorted = v.sorted;
  same = v.same;
  once = λ s. ground (arith, v.once s, v.given s);
  given = λ s l. ground (arith, v.given s (omega arith));
}

module _ (before : Timer → Timer → Bool) where
  pub occurrences-insert_entry :
      (s : ℕ) (t : Timer) (ts : List Timer)
      → occurrences s (insert_entry before t ts) ≡ occurrences s (t ∷ ts)
  unfolding occurrences insert_entry
  occurrences-insert_entry s t [] = refl
  occurrences-insert_entry s t (u ∷ us) = ground (arith, occurrences-insert_entry s t us)

  -- A timer that the round has taken out goes back, perhaps with another expiration.
  pub insert-IsValid :
      (taken : List Timer) (t : Timer) (q : TimerQueue)
      → IsValid (t ∷ taken) q
      → IsValid taken (insert before t q)
  unfolding insert occurrences
  insert-IsValid taken t q v = record {
    sorted = insert_entry-IsSorted before t q.timers v.sorted;
    same = λ s. ground (arith, v.same s, occurrences-insert_entry s t q.timers);
    once = λ s. ground (arith, v.once s, occurrences-insert_entry s t q.timers);
    given = λ s l. ground (arith, v.given s l, occurrences-insert_entry s t q.timers);
  }

  pub add_timer-IsValid :
      (taken : List Timer) (now when interval callback : ℕ) (q : TimerQueue)
      → IsValid taken q
      → IsValid taken (add_timer before now when interval callback q).0
  unfolding add_timer add_timer_in_loop
  add_timer-IsValid taken now when interval callback q v =
      let w =
        insert-IsValid taken (new_timer (now + when) interval callback q.created)
          (record q { created = suc q.created; made = q.made ++ suc q.created ∷ [] })
          (new_timer-IsValid taken (now + when) interval callback q (q.made ++ suc q.created ∷ [])
            v) in
      record { sorted = w.sorted; same = w.same; once = w.once; given = w.given }

pub raise-IsValid :
    (taken : List Timer) (n : ℕ) (q : TimerQueue) → IsValid taken q → IsValid taken (raise n q)
unfolding raise
raise-IsValid taken n q v = record {
  sorted = v.sorted;
  same = v.same;
  once = v.once;
  given = λ s l. v.given s (omega (arith, l));
}

pub make-IsValid : (created : ℕ) → IsValid [] (make created)
unfolding make occurrences
make-IsValid created = record {
  sorted = tt;
  same = λ s. refl;
  once = λ s. omega arith;
  given = λ s l. refl;
}
