-- ===== src/Core/TimerQueue.antt =====
-- include/tzzero/core/timer_queue.h and src/core/timer_queue.cpp: the timers of a loop. A time is a
-- number of microseconds, where the source has a `double` of seconds. A timer stands for its
-- pointer, since its fields change only while no set holds it; the order of two pointers, by which
-- `std::set` orders timers of equal expiration, is the parameter `before`. A timer is put into a set
-- only while it is in none, so the sets are lists. `now` is what the clock shows.
pub mod Expiry
pub mod Sets
pub mod Rounds
pub mod Owned
pub mod Freed
mod Tests
use tzzero_http.Prelude.{
  ℕ, zero, suc, ◌+◌, ◌^◌, Bool, true, false, not, ◌&&◌, ◌||◌, ltb, leb, ◌==◌, if◌then◌else◌, Option,
  none, some, List, [], ◌∷◌, ◌++◌, take, length,
}

pub record Timer : Type 0 where
  pub callback : ℕ
  pub expiration : ℕ
  pub interval : ℕ
  pub repeats : Bool
  pub sequence : ℕ

-- `created` is the static counter of the timers, `armed` the last value that `reset_timerfd` was
-- given. The lists have sequence numbers: `fired` of the timers whose callbacks were called, `made` of
-- those that this queue has made, `freed` of those that were deleted, and `lost` of those that a round
-- had taken out of the sets when an exception ended it.
pub record TimerQueue : Type 0 where
  pub timers : List Timer
  pub active_timers : List Timer
  pub created : ℕ
  pub armed : Option ℕ
  pub fired : List ℕ
  pub made : List ℕ
  pub freed : List ℕ
  pub lost : List ℕ

unfoldable pub make : ℕ → TimerQueue
make created = record {
  timers = [];
  active_timers = [];
  created = created;
  armed = none;
  fired = [];
  made = [];
  freed = [];
  lost = [];
}

-- The constructor of `Timer`.
unfoldable pub new_timer : ℕ → ℕ → ℕ → ℕ → Timer
new_timer when interval callback created = record {
  callback = callback;
  expiration = when;
  interval = interval;
  repeats = ltb 0 interval;
  sequence = suc created;
}

unfoldable pub restart : ℕ → Timer → Timer
restart now t =
    if t.repeats then record t { expiration = now + t.interval } else record t { expiration = 0 }

-- `std::set::erase` of a timer, which its sequence number tells from the others.
unfoldable pub erase : ℕ → List Timer → List Timer
erase s [] = []
erase s (t ∷ ts) = if t.sequence == s then ts else t ∷ erase s ts

-- The linear search of `cancel_in_loop`.
unfoldable pub find_sequence : ℕ → List Timer → Option Timer
find_sequence s [] = none
find_sequence s (t ∷ ts) = if t.sequence == s then some t else find_sequence s ts

unfoldable pub cancel_timer : ℕ → TimerQueue → TimerQueue
unfolding find_sequence erase
cancel_timer s q = elim (find_sequence s q.active_timers) [
  | none ↦ q
  | some t ↦ record q {
    timers = erase t.sequence q.timers;
    active_timers = erase s q.active_timers;
    freed = q.freed ++ t.sequence ∷ [];
  }
]

-- `poll`'s timeout in milliseconds, where -1 is `forever`.
pub data Timeout : Type 0 where
  forever : Timeout
  milliseconds : ℕ → Timeout

-- `scaled` is what the processor's arithmetic makes of `(next_expire - now_time) * 1000`, without what
-- is behind the point; `none` is the cast to `int` of a number that does not fit, which is undefined.
unfoldable pub timeout_of : (ℕ → ℕ → ℕ) → ℕ → List Timer → Option Timeout
timeout_of scaled now [] = some forever
timeout_of scaled now (t ∷ ts) =
    if leb t.expiration now
    then some (milliseconds 0)
    else (if ltb (scaled t.expiration now) (2 ^ 31)
        then some (milliseconds (scaled t.expiration now))
        else none)

unfoldable pub get_next_timeout : (ℕ → ℕ → ℕ) → ℕ → TimerQueue → Option Timeout
unfolding timeout_of
get_next_timeout scaled now q = timeout_of scaled now q.timers

-- The entries before `lower_bound` of the sentry, whose pointer is behind every other, and those
-- behind it.
unfoldable pub due : ℕ → List Timer → List Timer
due now [] = []
due now (t ∷ ts) = let rest = due now ts in if leb t.expiration now then t ∷ rest else []

unfoldable pub not_due : ℕ → List Timer → List Timer
not_due now [] = []
not_due now (t ∷ ts) = let rest = not_due now ts in if leb t.expiration now then rest else t ∷ ts

unfoldable pub erase_all : List Timer → List Timer → List Timer
unfolding erase
erase_all [] ts = ts
erase_all (x ∷ xs) ts = erase_all xs (erase x.sequence ts)

unfoldable pub get_expired : ℕ → TimerQueue → List Timer × TimerQueue
unfolding due not_due erase_all
get_expired now q = (
  due now q.timers,
  record q {
    timers = not_due now q.timers;
    active_timers = erase_all (due now q.timers) q.active_timers;
  },
)

-- `reset_timerfd` for the first timer, if there is one.
unfoldable pub arm_first : List Timer → Option ℕ → Option ℕ
arm_first [] armed = armed
arm_first (t ∷ ts) armed = some t.expiration

abbrev pub sequences : List Timer → List ℕ
sequences [] = []
sequences (t ∷ ts) = t.sequence ∷ sequences ts

-- What a callback asks of the queue: a new timer, with the time that the clock shows then, or a
-- cancellation. Meanwhile other queues can make timers, which raises the static counter.
pub data Action : Type 0 where
  adds : ℕ → ℕ → ℕ → ℕ → Action
  cancels elsewhere : ℕ → Action

-- The timers that other queues make.
unfoldable pub raise : ℕ → TimerQueue → TimerQueue
raise n q = record q { created = q.created + n }

module _ (before : Timer → Timer → Bool) where
  -- `std::set::insert` by expiration, then by pointer.
  unfoldable pub insert_entry : Timer → List Timer → List Timer
  insert_entry t [] = t ∷ []
  insert_entry t (u ∷ us) =
      if ltb t.expiration u.expiration || (t.expiration == u.expiration && before t u)
      then t ∷ u ∷ us
      else u ∷ insert_entry t us

  -- Whether the new timer is the first one.
  unfoldable pub earliest : ℕ → List Timer → Bool
  earliest when [] = true
  earliest when (u ∷ us) = ltb when u.expiration

  unfoldable pub insert : Timer → TimerQueue → TimerQueue
  unfolding insert_entry
  insert t q = record q { timers = insert_entry t q.timers; active_timers = t ∷ q.active_timers }

  unfoldable pub add_timer_in_loop : Timer → TimerQueue → TimerQueue
  unfolding insert earliest
  add_timer_in_loop t q = record (insert t q) {
    armed = if earliest t.expiration q.timers then some t.expiration else q.armed;
  }

  -- The queue, with the sequence number that the caller gets.
  unfoldable pub add_timer : ℕ → ℕ → ℕ → ℕ → TimerQueue → TimerQueue × ℕ
  unfolding add_timer_in_loop new_timer
  add_timer now when interval callback q = (
    add_timer_in_loop (new_timer (now + when) interval callback q.created)
        (record q { created = suc q.created; made = q.made ++ suc q.created ∷ [] }),
    suc q.created,
  )

  unfoldable pub act : List Action → TimerQueue → TimerQueue
  unfolding add_timer cancel_timer raise
  act [] q = q
  act (elsewhere n ∷ as_) q = act as_ (raise n q)
  act (adds now when interval callback ∷ as_) q = act as_ (add_timer now when interval callback q).0
  act (cancels s ∷ as_) q = act as_ (cancel_timer s q)

  -- The callbacks of the expired timers, in order.
  unfoldable pub run_expired : (ℕ → List Action) → List Timer → TimerQueue → TimerQueue
  unfolding act
  run_expired acts [] q = q
  run_expired acts (t ∷ ts) q =
      run_expired acts ts (act (acts t.callback) (record q { fired = q.fired ++ t.sequence ∷ [] }))

  unfoldable pub reinsert : ℕ → List Timer → TimerQueue → TimerQueue
  unfolding insert restart
  reinsert now [] q = q
  reinsert now (t ∷ ts) q =
      let q' =
        if t.repeats
        then insert (restart now t) q
        else record q { freed = q.freed ++ t.sequence ∷ [] } in
      reinsert now ts q'

  unfoldable pub reset : ℕ → List Timer → TimerQueue → TimerQueue
  unfolding reinsert arm_first
  reset now expired q =
      let q' = reinsert now expired q in record q' { armed = arm_first q'.timers q'.armed }

  unfoldable pub process_expired_timers : (ℕ → List Action) → ℕ → TimerQueue → TimerQueue
  unfolding get_expired run_expired reset
  process_expired_timers acts now q =
      let (expired, q') = get_expired now q in reset now expired (run_expired acts expired q')

  -- The same where the callback with this index throws, when it has asked for what it asks for: the
  -- exception leaves the round before `reset`, and the timers are in no set.
  unfoldable pub break_off : (ℕ → List Action) → ℕ → ℕ → TimerQueue → TimerQueue
  unfolding get_expired run_expired process_expired_timers
  break_off acts k now q =
      let (expired, q') = get_expired now q in
      let left = run_expired acts (take (suc k) expired) q' in
      if ltb k (length expired)
      then record left { lost = left.lost ++ sequences expired }
      else process_expired_timers acts now q

  -- The callback of the descriptor, whose count is read and left aside.
  unfoldable pub handle_timer_fd : (ℕ → List Action) → ℕ → TimerQueue → TimerQueue
  unfolding process_expired_timers
  handle_timer_fd acts now q = process_expired_timers acts now q

-- The destructor deletes the timers of the first set; this is all that was deleted then.
unfoldable pub destruct : TimerQueue → List ℕ
destruct q = q.freed ++ sequences q.timers

-- What is asked of a queue from the outside: a new timer, a cancellation, or a round, whose callbacks
-- all return or of which one throws. Between the calls other queues can make timers.
pub data Call : Type 0 where
  add_call : ℕ → ℕ → ℕ → ℕ → Call
  cancel_call elsewhere_call : ℕ → Call
  round_call : (ℕ → List Action) → ℕ → Call
  broken_call : (ℕ → List Action) → ℕ → ℕ → Call

module _ (before : Timer → Timer → Bool) where
  unfoldable pub call : Call → TimerQueue → TimerQueue
  unfolding add_timer cancel_timer raise process_expired_timers break_off
  call (add_call now when interval callback) q = (add_timer before now when interval callback q).0
  call (cancel_call s) q = cancel_timer s q
  call (elsewhere_call n) q = raise n q
  call (round_call acts now) q = process_expired_timers before acts now q
  call (broken_call acts k now) q = break_off before acts k now q

  unfoldable pub run : List Call → TimerQueue → TimerQueue
  unfolding call
  run [] q = q
  run (c ∷ cs) q = run cs (call c q)
