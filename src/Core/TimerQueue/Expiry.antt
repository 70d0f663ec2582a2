-- ===== src/Core/TimerQueue/Expiry.antt =====
-- The order of the timers and the times at which they expire.
use tzzero_http.Prelude.{
  ℕ, ◌+◌, ◌-◌, ◌*◌, ◌^◌, ◌≤◌, ◌<◌, ◌≡◌, ◌⊎◌, inl, inr, refl, ap, subst, arith, Bool, false, leb,
  ltb, none, some, Bool-cases, List, [], ◌∷◌, ◌++◌,
}
use tzzero_http.Core.TimerQueue.{
  Timer, TimerQueue, milliseconds, timeout_of, get_next_timeout, due, not_due, insert_entry, erase,
}

-- Each timer expires no later than those behind it.
abbrev pub NoLater : ℕ → List Timer → Type 0
NoLater when [] = Unit {0}
NoLater when (t ∷ ts) = (when ≤ t.expiration) × NoLater when ts

abbrev pub IsSorted : List Timer → Type 0
IsSorted [] = Unit {0}
IsSorted (t ∷ ts) = NoLater t.expiration ts × IsSorted ts

NoLater-trans : (a b : ℕ) (ts : List Timer) → a ≤ b → NoLater b ts → NoLater a ts
NoLater-trans a b [] h v = tt
NoLater-trans a b (t ∷ ts) h v = (omega (arith, v.0), NoLater-trans a b ts h v.1)

module _ (before : Timer → Timer → Bool) where
  NoLater-insert_entry :
      (when : ℕ) (t : Timer) (ts : List Timer)
      → when ≤ t.expiration
      → NoLater when ts
      → NoLater when (insert_entry before t ts)
  unfolding insert_entry
  NoLater-insert_entry when t [] h v = (h, tt)
  NoLater-insert_entry when t (u ∷ us) h v = ground (arith, NoLater-insert_entry when t us h v.1)

  pub insert_entry-IsSorted :
      (t : Timer) (ts : List Timer) → IsSorted ts → IsSorted (insert_entry before t ts)
  unfolding insert_entry
  insert_entry-IsSorted t [] v = (tt, tt)
  insert_entry-IsSorted t (u ∷ us) v = ground (
    arith,
    insert_entry-IsSorted t us v.1,
    NoLater-trans t.expiration u.expiration us,
    NoLater-insert_entry u.expiration t us,
  )

NoLater-erase : (when s : ℕ) (ts : List Timer) → NoLater when ts → NoLater when (erase s ts)
unfolding erase
NoLater-erase when s [] v = tt
NoLater-erase when s (t ∷ ts) v = ground (arith, NoLater-erase when s ts v.1)

pub erase-IsSorted : (s : ℕ) (ts : List Timer) → IsSorted ts → IsSorted (erase s ts)
unfolding erase
erase-IsSorted s [] v = tt
erase-IsSorted s (t ∷ ts) v =
    ground (arith, erase-IsSorted s ts v.1, NoLater-erase t.expiration s ts v.0)

pub not_due-IsSorted : (now : ℕ) (ts : List Timer) → IsSorted ts → IsSorted (not_due now ts)
unfolding not_due
not_due-IsSorted now [] v = tt
not_due-IsSorted now (t ∷ ts) v = ground (arith, not_due-IsSorted now ts v.1)

-- Timers that have expired by this time, and timers that have not.
abbrev pub AllDue : ℕ → List Timer → Type 0
AllDue now [] = Unit {0}
AllDue now (t ∷ ts) = (t.expiration ≤ now) × AllDue now ts

abbrev pub NoneDue : ℕ → List Timer → Type 0
NoneDue now [] = Unit {0}
NoneDue now (t ∷ ts) = (now < t.expiration) × NoneDue now ts

NoLater-NoneDue : (now when : ℕ) (ts : List Timer) → now < when → NoLater when ts → NoneDue now ts
NoLater-NoneDue now when [] h v = tt
NoLater-NoneDue now when (t ∷ ts) h v = (omega (arith, v.0), NoLater-NoneDue now when ts h v.1)

-- In a sorted list the two parts are the timers that are due and those that are not, in order.
pub due_splits :
    (now : ℕ) (ts : List Timer)
    → IsSorted ts
    → (due now ts ++ not_due now ts ≡ ts) × AllDue now (due now ts) × NoneDue now (not_due now ts)
unfolding due not_due
due_splits now [] v = (refl, tt, tt)
due_splits now (t ∷ ts) v = elim (Bool-cases (leb t.expiration now)) [
  | inl e ↦
      let (whole, all, no_others) = due_splits now ts v.1 in
      rw e (ap (λ us. t ∷ us) whole, (ground (arith, e), all), no_others)
  | inr e ↦
      rw e
        (refl, tt, (ground (arith, e), NoLater-NoneDue now t.expiration ts (ground (arith, e)) v.0))
]

-- The arithmetic is exact to a microsecond.
abbrev pub IsAccurate : (ℕ → ℕ → ℕ) → ℕ → ℕ → Type 0
IsAccurate scaled next now =
    (now + 1000 * scaled next now ≤ next + 1) × (next < now + 1000 * scaled next now + 1001)

-- In a sorted queue with a timer that is not due, where the arithmetic is exact to a microsecond: if the
-- cast is defined, poll's timeout is over at most a microsecond behind the time at which any timer
-- expires, and if it is not, the first timer is more than 24 days away.
pub get_next_timeout_bounds :
    (scaled : ℕ → ℕ → ℕ) (now : ℕ) (t : Timer) (ts : List Timer) (q : TimerQueue)
    → IsSorted q.timers
    → q.timers ≡ t ∷ ts
    → now < t.expiration
    → IsAccurate scaled t.expiration now
    → ((ms : ℕ) × (get_next_timeout scaled now q ≡ some (milliseconds ms))
        × NoLater (now + 1000 * ms - 1) q.timers)
      ⊎ ((get_next_timeout scaled now q ≡ none) × (now + 24 * 86400000000 < t.expiration))
unfolding get_next_timeout timeout_of
get_next_timeout_bounds scaled now t ts q v e d a =
    let sorted = subst IsSorted e v in
    let late : leb t.expiration now ≡ false = ground (arith, d) in
    elim (Bool-cases (ltb (scaled t.expiration now) (2 ^ 31))) [
      | inl f ↦
          let ms = scaled t.expiration now in
          let low : now + 1000 * ms - 1 ≤ t.expiration = omega (arith, a.0) in
          rw (e, late, f)
            (inl
              (ms, refl, (low, NoLater-trans (now + 1000 * ms - 1) t.expiration ts low sorted.0)))
      | inr f ↦
          let big : 2 ^ 31 ≤ scaled t.expiration now = ground (arith, f) in
          rw (e, late, f) (inr (refl, omega (arith, a.0, big)))
    ]
