-- ===== src/Net/EventLoopThreadPool.antt =====
-- include/tzzero/net/event_loop_thread_pool.h and src/net/event_loop_thread_pool.cpp: the pool of
-- event loops that new connections are dealt out to. A loop is a number; `loop_of` gives the loop
-- that the thread with an index runs, which `start_loop` waits for. `none` is an assertion that
-- fails, or a read past the end of the vector. A negative number of threads is left out.
pub mod Turns
mod Tests
use tzzero_http.Prelude.{
  ℕ, zero, suc, ◌+◌, Bool, true, false, not, ◌&&◌, ◌==◌, leb, if◌then◌else◌, Option, none, some,
  List, [], ◌∷◌, ◌++◌, length,
}

pub record EventLoopThreadPool : Type 0 where
  pub base_loop : ℕ
  pub started : Bool
  pub num_threads : ℕ
  pub next : ℕ
  pub loops : List ℕ

unfoldable pub make : ℕ → EventLoopThreadPool
make base_loop = record {
  base_loop = base_loop;
  started = false;
  num_threads = 0;
  next = 0;
  loops = [];
}

unfoldable pub set_thread_num : ℕ → EventLoopThreadPool → EventLoopThreadPool
set_thread_num n p = record p { num_threads = n }

-- The `for` loop: the loops of the threads from the index `i` on, `n` of them.
unfoldable pub start_threads : (ℕ → ℕ) → ℕ → ℕ → List ℕ
start_threads loop_of i zero = []
start_threads loop_of i (suc n) = loop_of i ∷ start_threads loop_of (suc i) n

-- The second part lists the loops on which the callback was run, if there is one: each thread runs
-- it on its own loop.
unfoldable pub start :
    (ℕ → ℕ) → Bool → Bool → EventLoopThreadPool → Option (EventLoopThreadPool × List ℕ)
unfolding start_threads
start loop_of in_loop has_callback p =
    let new_loops = start_threads loop_of 0 p.num_threads in
    if not p.started && in_loop
    then some (
      record p { started = true; loops = p.loops ++ new_loops },
      if has_callback then (if p.num_threads == 0 then p.base_loop ∷ [] else new_loops) else [],
    )
    else none

-- `loops_[i]`
unfoldable pub nth : List ℕ → ℕ → Option ℕ
nth [] i = none
nth (l ∷ ls) zero = some l
nth (l ∷ ls) (suc i) = nth ls i

-- The index behind `i`, from the front again at the end.
unfoldable pub advance : ℕ → ℕ → ℕ
advance size i = if leb size (suc i) then 0 else suc i

unfoldable pub take_turn : Option ℕ → EventLoopThreadPool → Option (ℕ × EventLoopThreadPool)
unfolding advance
take_turn none p = none
take_turn (some l) p = some (l, record p { next = advance (length p.loops) p.next })

unfoldable pub get_next_loop : EventLoopThreadPool → Option (ℕ × EventLoopThreadPool)
unfolding take_turn nth
get_next_loop p =
    if p.started
    then elim p.loops [ [] ↦ some (p.base_loop, p) | l ∷ ls ↦ take_turn (nth p.loops p.next) p ]
    else none

-- The loops that a number of calls in a row give.
unfoldable pub next_loops : ℕ → EventLoopThreadPool → Option (List ℕ × EventLoopThreadPool)
unfolding get_next_loop
next_loops zero p = some ([], p)
next_loops (suc n) p = elim (get_next_loop p) [
  | none ↦ none
  | some (l, p1) ↦ elim (next_loops n p1) [ none ↦ none | some (ls, p2) ↦ some (l ∷ ls, p2) ]
]
