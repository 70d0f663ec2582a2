-- ===== src/Core/TimerQueue/Freed.antt =====
-- The timers that are deleted, by the destructor too, over every run of calls.
use tzzero_http.Prelude.{
  ℕ, ◌+◌, ◌≤◌, ◌≡◌, ◌⊎◌, inl, inr, refl, ◌∙◌, arith, Bool, false, true, List, [], ◌∷◌,
}
use tzzero_http.Core.TimerQueue.{
  Timer, TimerQueue, make, raise, cancel_timer, add_timer, break_off, process_expired_timers,
  sequences, destruct, Call, add_call, cancel_call, elsewhere_call, round_call, broken_call, run,
}
use tzzero_http.Core.TimerQueue.Owned.{
  count, count-append, count-sequences, IsOwned, make-IsOwned, cancel_timer-IsOwned, raise-IsOwned,
  add_timer-IsOwned, process_expired_timers-IsOwned, break_off-IsOwned,
}
use tzzero_http.Core.TimerQueue.Sets.{occurrences}

-- Whether a callback throws in one of the calls.
abbrev pub throws : List Call → Bool
throws [] = false
throws (broken_call acts k now ∷ cs) = true
throws (add_call now when interval callback ∷ cs) = throws cs
throws (cancel_call s ∷ cs) = throws cs
throws (elsewhere_call n ∷ cs) = throws cs
throws (round_call acts now ∷ cs) = throws cs

module _ (before : Timer → Timer → Bool) where
  run-IsOwned :
      (cs : List Call) (lost : List ℕ) (q : TimerQueue)
      → IsOwned lost [] q
      → (l : List ℕ) × IsOwned l [] (run before cs q) × ((throws cs ≡ true) ⊎ (l ≡ lost))
  unfolding run
  run-IsOwned [] lost q v = (lost, v, inr refl)
  run-IsOwned (add_call now when interval callback ∷ cs) lost q v =
      run-IsOwned cs lost (add_timer before now when interval callback q).0
        (add_timer-IsOwned before lost [] now when interval callback q v)
  run-IsOwned (cancel_call s ∷ cs) lost q v =
      run-IsOwned cs lost (cancel_timer s q) (cancel_timer-IsOwned lost [] s q v)
  run-IsOwned (elsewhere_call n ∷ cs) lost q v =
      run-IsOwned cs lost (raise n q) (raise-IsOwned lost [] n q v)
  run-IsOwned (round_call acts now ∷ cs) lost q v =
      run-IsOwned cs lost (process_expired_timers before acts now q)
        (process_expired_timers-IsOwned before lost acts now q v)
  run-IsOwned (broken_call acts k now ∷ cs) lost q v =
      let (l, w) = break_off-IsOwned before lost acts k now q v in
      let (l', x, same) = run-IsOwned cs l (break_off before acts k now q) w in (l', x, inl refl)

-- Whatever is asked of a new queue, whatever its callbacks ask of it, whichever of them throw, and
-- however many timers other queues make meanwhile: when the destructor is done, each timer that the
-- queue has made, which it made once, was deleted once or was lost once in a round that an exception
-- ended, and not both; nothing else was deleted; and if no callback throws, none was lost.
pub destruct_lem :
    (before : Timer → Timer → Bool) (created : ℕ) (cs : List Call) (s : ℕ)
    → (count s (destruct (run before cs (make created)))
          + count s (run before cs (make created)).lost
        ≡ count s (run before cs (make created)).made)
      × (count s (run before cs (make created)).made ≤ 1)
      × ((throws cs ≡ true) ⊎ ((run before cs (make created)).lost ≡ []))
unfolding destruct occurrences
destruct_lem before created cs s =
    let q = run before cs (make created) in
    let (l, v, same) = run-IsOwned before cs [] (make created) (make-IsOwned created) in
    (
      omega (
        arith,
        v.owned s,
        count-append s q.freed (sequences q.timers),
        count-sequences s q.timers,
      ),
      v.once s,
      elim same [ inl t ↦ inl t | inr e ↦ inr (v.left ∙ e) ],
    )
