-- ===== src/Net/EventLoopThread/Handshake.antt =====
-- What the owner may rely on when `start_loop` returns.
use tzzero_http.Prelude.{
  ◌≡◌, arith, subst, inl, inr, Bool, true, false, ◌&&◌, if◌then◌else◌, some, Option-cases, List, [],
  ◌∷◌,
}
use tzzero_http.Net.EventLoopThread.{
  Stage, unmade, made, called, published, looping, left, Owner, outside, woken, joining, holding,
  EventLoopThread, make, Event, starts, wakes, returns, destructs, joins, runs, start_loop, wake,
  return_loop, destruct, join, thread_func, step, run,
}

-- Whether the loop is given away and not yet taken back.
abbrev pub gives : Stage → Bool
gives published = true
gives looping = true
gives left = true
gives _ = false

-- Whether the callback is behind the thread.
abbrev pub past_callback : Stage → Bool
past_callback unmade = false
past_callback made = false
past_callback _ = true

-- Whether the loop was given away.
abbrev pub past_publication : Stage → Bool
past_publication unmade = false
past_publication made = false
past_publication called = false
past_publication _ = true

-- Whether the owner is in a state that it reaches only once the loop was given away.
abbrev pub has_waited : Owner → Bool
has_waited woken = true
has_waited (holding b) = true
has_waited joining = true
has_waited _ = false

abbrev is_outside : Owner → Bool
is_outside outside = true
is_outside _ = false

abbrev is_unmade : Stage → Bool
is_unmade unmade = true
is_unmade _ = false

-- `loop_` is set exactly between the two places where the thread writes it; the callback, if there is
-- one, is called once, before the loop is given away, and never if there is none; and the owner goes on
-- from `start_loop` only behind that.
pub record IsHandshake (t : EventLoopThread) : Type 0 where
  pub given : t.loop_set ≡ gives t.stage
  pub counted : t.calls ≡ (if t.has_callback && past_callback t.stage then 1 else 0)
  pub behind : has_waited t.owner ≡ true → past_publication t.stage ≡ true
  pub before : is_outside t.owner ≡ true → is_unmade t.stage ≡ true

pub make-IsHandshake : (has_callback : Bool) → IsHandshake (make has_callback)
unfolding make
make-IsHandshake has_callback = ground arith

some_injective : {a b : EventLoopThread} → some a ≡ some b → a ≡ b
some_injective h = cc

module _ (t t' : EventLoopThread) (v : IsHandshake t) where
  start_loop-IsHandshake : start_loop t.owner t.stage t ≡ some t' → IsHandshake t'
  unfolding start_loop
  start_loop-IsHandshake h = ground arith

  wake-IsHandshake : wake t.owner t ≡ some t' → IsHandshake t'
  unfolding wake
  wake-IsHandshake h = ground arith

  return_loop-IsHandshake : return_loop t.owner t ≡ some t' → IsHandshake t'
  unfolding return_loop
  return_loop-IsHandshake h = ground arith

  destruct-IsHandshake : destruct t.owner t ≡ some t' → IsHandshake t'
  unfolding destruct
  destruct-IsHandshake h = ground arith

  join-IsHandshake : join t.owner t.stage t ≡ some t' → IsHandshake t'
  unfolding join
  join-IsHandshake h = ground arith

  thread_func-IsHandshake : (fails : Bool) → thread_func fails t.stage t ≡ some t' → IsHandshake t'
  unfolding thread_func
  thread_func-IsHandshake fails h = ground arith

step-IsHandshake :
    (e : Event) (t t' : EventLoopThread) → IsHandshake t → step e t ≡ some t' → IsHandshake t'
unfolding step
step-IsHandshake starts t t' v h = start_loop-IsHandshake t t' v h
step-IsHandshake wakes t t' v h = wake-IsHandshake t t' v h
step-IsHandshake returns t t' v h = return_loop-IsHandshake t t' v h
step-IsHandshake destructs t t' v h = destruct-IsHandshake t t' v h
step-IsHandshake joins t t' v h = join-IsHandshake t t' v h
step-IsHandshake (runs fails) t t' v h = thread_func-IsHandshake t t' v fails h

-- In every run of the thread and its owner from such a state, for example from a new object: `loop_` is
-- set exactly while the thread stands between the place where it gives its loop away and the place where
-- it takes it back; the callback, if there is one, is called once, before the loop is given away; and
-- the owner gets past the wait of `start_loop` only behind that.
pub run-IsHandshake :
    (es : List Event) (t t' : EventLoopThread) → IsHandshake t → run es t ≡ some t' → IsHandshake t'
unfolding run
run-IsHandshake [] t t' v h = subst IsHandshake (some_injective h) v
run-IsHandshake (e ∷ es) t t' v h = elim (Option-cases (step e t)) [
  | inl q ↦ absurd (cc (rw (q, run) at h))
  | inr (u, q) ↦ run-IsHandshake es u t' (step-IsHandshake e t u v q) (rw (q, run) at h)
]
