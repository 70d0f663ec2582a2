-- ===== src/Net/EventLoopThread.antt =====
-- `EventLoopThread` of include/tzzero/net/event_loop_thread_pool.h and
-- src/net/event_loop_thread_pool.cpp: a thread that runs a loop, and its owner, as steps of the two.
-- The loop's `quit_` is set on `quit` and cleared on entry to `loop`, as in Core/EventLoop.antt. `none`
-- is a step that cannot be taken now, which for the owner is to wait.
pub mod Handshake
pub mod Joining
mod Tests
use tzzero_http.Prelude.{
  ℕ, suc, Bool, true, false, if◌then◌else◌, Option, none, some, List, [], ◌∷◌,
}

-- Where the thread stands: not yet made, before its callback, before it gives its loop away, before
-- `loop`, in it, behind it, and at its end.
pub data Stage : Type 0 where
  unmade made called published looping left ended : Stage

-- Where the owner stands: outside, in the `while` of `start_loop`, behind it, with what `start_loop`
-- returned, in the `join` of the destructor, and behind the destructor; or the process has ended, since
-- a thread was destroyed that was not joined.
pub data Owner : Type 0 where
  outside waiting woken joining destroyed terminated : Owner
  holding : Bool → Owner

-- `loop_set` tells whether `loop_` is not null, and `calls` counts the calls of the callback.
pub record EventLoopThread : Type 0 where
  pub stage : Stage
  pub owner : Owner
  pub loop_set : Bool
  pub quit : Bool
  pub has_callback : Bool
  pub calls : ℕ

unfoldable pub make : Bool → EventLoopThread
make has_callback = record {
  stage = unmade;
  owner = outside;
  loop_set = false;
  quit = false;
  has_callback = has_callback;
  calls = 0;
}

-- `start_loop` as far as its lock. The assertion is that there is no thread yet.
unfoldable pub start_loop : Owner → Stage → EventLoopThread → Option EventLoopThread
start_loop outside unmade t = some (record t { stage = made; owner = waiting })
start_loop _ _ t = none

-- The end of the `while`, with the lock.
unfoldable pub wake : Owner → EventLoopThread → Option EventLoopThread
wake waiting t = if t.loop_set then some (record t { owner = woken }) else none
wake _ t = none

-- `start_loop` reads `loop_` again, without the lock, and returns it.
unfoldable pub return_loop : Owner → EventLoopThread → Option EventLoopThread
return_loop woken t = some (record t { owner = holding t.loop_set })
return_loop _ t = none

abbrev is_unmade : Stage → Bool
is_unmade unmade = true
is_unmade _ = false

-- The destructor as far as `join`; a thread that was made can be joined until it is.
unfoldable pub quit_loop : EventLoopThread → EventLoopThread
quit_loop t =
    if t.loop_set
    then record t { quit = true; owner = joining }
    else (if is_unmade t.stage
        then record t { owner = destroyed }
        else record t { owner = terminated })

unfoldable pub destruct : Owner → EventLoopThread → Option EventLoopThread
unfolding quit_loop
destruct outside t = some (quit_loop t)
destruct (holding b) t = some (quit_loop t)
destruct _ t = none

unfoldable pub join : Owner → Stage → EventLoopThread → Option EventLoopThread
join joining ended t = some (record t { owner = destroyed })
join _ _ t = none

-- The steps of `thread_func`. `fails` tells whether `poll` has failed, which ends the loop.
unfoldable pub thread_func : Bool → Stage → EventLoopThread → Option EventLoopThread
thread_func fails made t =
    some (record t { stage = called; calls = if t.has_callback then suc t.calls else t.calls })
thread_func fails called t = some (record t { stage = published; loop_set = true })
thread_func fails published t = some (record t { stage = looping; quit = false })
thread_func fails looping t =
    if t.quit
    then some (record t { stage = left })
    else (if fails then some (record t { stage = left }) else none)
thread_func fails left t = some (record t { stage = ended; loop_set = false })
thread_func fails _ t = none

pub data Event : Type 0 where
  starts wakes returns destructs joins : Event
  runs : Bool → Event

unfoldable pub step : Event → EventLoopThread → Option EventLoopThread
unfolding start_loop wake return_loop destruct join thread_func
step starts t = start_loop t.owner t.stage t
step wakes t = wake t.owner t
step returns t = return_loop t.owner t
step destructs t = destruct t.owner t
step joins t = join t.owner t.stage t
step (runs fails) t = thread_func fails t.stage t

unfoldable pub run : List Event → EventLoopThread → Option EventLoopThread
unfolding step
run [] t = some t
run (e ∷ es) t = elim (step e t) [ none ↦ none | some t' ↦ run es t' ]
