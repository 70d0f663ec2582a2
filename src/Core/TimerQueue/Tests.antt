-- ===== src/Core/TimerQueue/Tests.antt =====
-- Timers at work: a periodic one that cancels itself, and one that fires once.
use tzzero_http.Prelude.{
  ℕ, ◌+◌, ◌-◌, ◌/◌, ◌≤◌, ◌≡◌, ◌≢◌, ◌⊎◌, refl, true, none, some, Bool, ltb, ◌==◌, List, [], ◌∷◌,
  ◌++◌, if◌then◌else◌,
}
use tzzero_http.Core.TimerQueue.{
  destruct, Call, add_call, cancel_call, elsewhere_call, round_call, broken_call, break_off, raise,
  run, sequences, Timer, TimerQueue, make, new_timer, due, not_due, cancel_timer, add_timer, Action,
  cancels, process_expired_timers, milliseconds, get_next_timeout,
}
use tzzero_http.Core.TimerQueue.Expiry.{AllDue, NoneDue}
use tzzero_http.Core.TimerQueue.Sets.{
  IsValid, occurrences, make-IsValid, add_timer-IsValid, cancel_timer_lem,
}
use tzzero_http.Core.TimerQueue.Freed.{throws, destruct_lem}
use tzzero_http.Core.TimerQueue.Owned.{count}
use tzzero_http.Core.TimerQueue.Rounds.{periodic, process_expired_timers-IsValid}

abbrev older : Timer → Timer → Bool
older t u = ltb t.sequence u.sequence

abbrev none_yet : TimerQueue
none_yet = make 0

abbrev one : TimerQueue
one = (add_timer older 100 5000 2000 7 none_yet).0

abbrev two : TimerQueue
two = (add_timer older 100 9000 0 8 one).0

abbrev acts : ℕ → List Action
acts c = if c == 7 then cancels 1 ∷ [] else []

two-IsValid : IsValid [] two
two-IsValid =
    add_timer-IsValid older [] 100 9000 0 8 one
      (add_timer-IsValid older [] 100 5000 2000 7 none_yet (make-IsValid 0))

abbrev later : TimerQueue
later = process_expired_timers older acts 6000 two

abbrev first : Timer
first = new_timer 5100 2000 7 0

abbrev second : Timer
second = new_timer 9100 0 8 1

two_timers : two.timers ≡ first ∷ second ∷ []
unfolding add_timer make
two_timers = refl

order : sequences two.timers ≡ 1 ∷ 2 ∷ []
unfolding add_timer make
order = refl

after_round : sequences later.timers ≡ 1 ∷ 2 ∷ []
unfolding process_expired_timers make
after_round = refl

cancelled : sequences (cancel_timer 1 two).timers ≡ 2 ∷ []
unfolding cancel_timer add_timer make
cancelled = refl

abbrev exact : ℕ → ℕ → ℕ
exact next now = (next - now) / 1000

timeout : get_next_timeout exact 1000 two ≡ some (milliseconds 4)
unfolding get_next_timeout add_timer make
timeout = refl

-- A timer that is 25 days away: the cast is undefined.
far_timeout : get_next_timeout exact 1000 (add_timer older 100 2160000000000 0 8 none_yet).0 ≡ none
unfolding get_next_timeout add_timer make
far_timeout = refl

process_expired_timers-IsValid_example :
    IsValid [] later
    × (later.fired ≡ two.fired ++ sequences (due 6000 two.timers))
    × (two.timers ≡ due 6000 two.timers ++ not_due 6000 two.timers)
    × AllDue 6000 (due 6000 two.timers)
    × NoneDue 6000 (not_due 6000 two.timers)
    × ((s : ℕ)
        → (occurrences s (due 6000 two.timers) ≡ 0)
          ⊎ (occurrences s later.timers ≡ occurrences s (periodic (due 6000 two.timers))))
process_expired_timers-IsValid_example =
    process_expired_timers-IsValid older acts 6000 two two-IsValid

cancel_timer_lem_example :
    IsValid [] (cancel_timer 1 two)
    × (occurrences 1 (cancel_timer 1 two).timers ≡ 0)
    × ((r : ℕ) → 1 ≢ r → occurrences r (cancel_timer 1 two).timers ≡ occurrences r two.timers)
    × ((cancel_timer 1 two).fired ≡ two.fired)
cancel_timer_lem_example = cancel_timer_lem [] 1 two two-IsValid

-- A timer that is cancelled, one that fires once, a periodic one that is left, and, behind a timer of
-- another queue, two that are due where the callback of the first one throws.
abbrev calls : List Call
calls =
    add_call 100 5000 0 8
    ∷ add_call 100 7000 0 8
    ∷ add_call 100 6000 2000 8
    ∷ cancel_call 5
    ∷ round_call acts 6500
    ∷ elsewhere_call 1
    ∷ add_call 6500 100 0 8
    ∷ add_call 6500 200 0 8
    ∷ broken_call acts 0 6800
    ∷ []

calls-freed : destruct (run older calls (make 3)) ≡ 5 ∷ 4 ∷ 6 ∷ []
unfolding destruct run add_timer cancel_timer process_expired_timers break_off raise make
calls-freed = refl

calls-lost : (run older calls (make 3)).lost ≡ 8 ∷ 9 ∷ []
unfolding run add_timer cancel_timer process_expired_timers break_off raise make
calls-lost = refl

destruct_lem_example :
    (count 9 (destruct (run older calls (make 3))) + count 9 (run older calls (make 3)).lost
      ≡ count 9 (run older calls (make 3)).made)
    × (count 9 (run older calls (make 3)).made ≤ 1)
    × ((throws calls ≡ true) ⊎ ((run older calls (make 3)).lost ≡ []))
destruct_lem_example = destruct_lem older 3 calls 9
