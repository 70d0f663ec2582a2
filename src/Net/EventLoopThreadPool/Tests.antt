-- ===== src/Net/EventLoopThreadPool/Tests.antt =====
-- `EventLoopThreadPool` (src/net/event_loop_thread_pool.cpp) with two threads.
use tzzero_http.Prelude.{ℕ, ◌+◌, ◌≡◌, refl, some, [], ◌∷◌}
use tzzero_http.Net.EventLoopThreadPool.{next_loops}
use tzzero_http.Net.EventLoopThreadPool.Turns.{at_turn}

-- The loop of the thread with this index.
abbrev loop_of : ℕ → ℕ
loop_of i = i + 10

three_calls :
    next_loops 3 (at_turn 7 2 [] (10 ∷ 11 ∷ []))
    ≡ some (10 ∷ 11 ∷ 10 ∷ [], at_turn 7 2 (10 ∷ []) (11 ∷ []))
unfolding next_loops
three_calls = refl
