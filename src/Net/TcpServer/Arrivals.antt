-- ===== src/Net/TcpServer/Arrivals.antt =====
-- The connections that arrive at a server.
use tzzero_http.Prelude.{
  ℕ, zero, suc, ◌+◌, ◌≤◌, ◌<◌, ◌≡◌, ◌⊎◌, inl, inr, refl, sym, ap, ◌∙◌, arith, subst, true, lt→ltb,
  Option, some, List, [], ◌∷◌, ◌++◌, append_assoc, append-nil, Bytes, length,
}
use tzzero_http.Net.Acceptor.{Acceptor, Answer, max_accept, handle_read as accept_read}
use tzzero_http.Net.Acceptor.Accepting.{
  arrivals, failure, outcome, descriptors, handle_read-outcome,
}
use tzzero_http.Net.EventLoopThreadPool.{
  EventLoopThreadPool, get_next_loop, take_turn, nth, advance,
}
use tzzero_http.Net.TcpServer.{
  Post, establishes, shuts, destroys, TcpServer, connect, new_connection, take_all, handle_read,
}

-- A pool that was started, with its index at one of the loops, if there is one.
pub record IsReady (p : EventLoopThreadPool) : Type 0 where
  pub started : p.started ≡ true
  pub within : (p.loops ≡ []) ⊎ (p.next < length p.loops)

-- The sockets of the connections that are established, in order.
unfoldable pub sockets : List Post → List ℕ
sockets [] = []
sockets (establishes c ∷ ps) = c.socket ∷ sockets ps
sockets (shuts c ∷ ps) = sockets ps
sockets (destroys c ∷ ps) = sockets ps

sockets-append : (ps rs : List Post) → sockets (ps ++ rs) ≡ sockets ps ++ sockets rs
unfolding sockets
sockets-append [] rs = refl
sockets-append (establishes c ∷ ps) rs = ap (◌∷◌ c.socket) (sockets-append ps rs)
sockets-append (shuts c ∷ ps) rs = sockets-append ps rs
sockets-append (destroys c ∷ ps) rs = sockets-append ps rs

nth_within : (ls : List ℕ) (i : ℕ) → i < length ls → (l : ℕ) × (nth ls i ≡ some l)
unfolding nth
nth_within [] i h = absurd (omega arith)
nth_within (l ∷ ls) zero h = (l, refl)
nth_within (l ∷ ls) (suc i) h = nth_within ls i (omega arith)

advance-within : (n i : ℕ) → 0 < n → advance n i < n
unfolding advance
advance-within n i h = ground arith

abbrev Given : EventLoopThreadPool → Type 0
Given p = (l : ℕ) × (p' : EventLoopThreadPool) × (get_next_loop p ≡ some (l, p')) × IsReady p'

abbrev started_pool : ℕ → ℕ → ℕ → List ℕ → EventLoopThreadPool
started_pool b n i ls = record {
  base_loop = b;
  started = true;
  num_threads = n;
  next = i;
  loops = ls;
}

Given-first : (b n i : ℕ) → Given (started_pool b n i [])
unfolding get_next_loop
Given-first b n i = (b, started_pool b n i [], refl, record { started = refl; within = inl refl })

Given-turn : (b n i l : ℕ) (ls : List ℕ) → i < suc (length ls) → Given (started_pool b n i (l ∷ ls))
unfolding get_next_loop take_turn
Given-turn b n i l ls h =
    let (k, e) = nth_within (l ∷ ls) i h in
    rw e (
      k,
      started_pool b n (advance (suc (length ls)) i) (l ∷ ls),
      refl,
      record { started = refl; within = inr (advance-within (suc (length ls)) i (omega arith)) },
    )

Given-any : (b n i : ℕ) (ls : List ℕ) → (ls ≡ []) ⊎ (i < length ls) → Given (started_pool b n i ls)
Given-any b n i [] w = Given-first b n i
Given-any b n i (l ∷ ls) (inl e) = absurd cc
Given-any b n i (l ∷ ls) (inr h) = Given-turn b n i l ls h

get_next_loop-Given : (p : EventLoopThreadPool) → IsReady p → Given p
get_next_loop-Given p v =
    subst (λ b. Given (record p { started = b })) (sym v.started)
      (Given-any p.base_loop p.num_threads p.next p.loops v.within)

new_connection-connect :
    (sockfd l : ℕ) (p' : EventLoopThreadPool) (s : TcpServer)
    → s.next_conn_id < 2147483647
    → get_next_loop s.thread_pool ≡ some (l, p')
    → new_connection sockfd s ≡ some (connect sockfd l p' s)
unfolding new_connection
new_connection-connect sockfd l p' s h e = rw (lt→ltb s.next_conn_id 2147483647 h, e) refl

take_all_next :
    (sockfd : ℕ) (peer : Bytes) (cs : List (ℕ × Bytes)) (s t : TcpServer)
    → new_connection sockfd s ≡ some t
    → take_all ((sockfd, peer) ∷ cs) s ≡ take_all cs t
unfolding take_all
take_all_next sockfd peer cs s t e = rw (take_all, e) refl

outcome-handed :
    (cs : List (ℕ × Bytes)) (e again opened : Option ℕ) (a : Acceptor)
    → a.has_callback ≡ true
    → a.handed ≡ []
    → (outcome cs e again opened a).handed ≡ cs
unfolding outcome
outcome-handed cs e again opened a c n = rw (c, n) refl

new_connection-IsReady :
    (sockfd : ℕ) (s : TcpServer)
    → IsReady s.thread_pool
    → s.next_conn_id < 2147483647
    → (s' : TcpServer) × (new_connection sockfd s ≡ some s')
      × IsReady s'.thread_pool
      × (s'.next_conn_id ≡ suc s.next_conn_id)
      × (sockets s'.posts ≡ sockets s.posts ++ sockfd ∷ [])
unfolding connect sockets
new_connection-IsReady sockfd s v h =
    let (l, p', e, w) = get_next_loop-Given s.thread_pool v in
    (
      connect sockfd l p' s,
      new_connection-connect sockfd l p' s h e,
      w,
      refl,
      sockets-append s.posts _,
    )

take_all-IsReady :
    (cs : List (ℕ × Bytes)) (s : TcpServer)
    → IsReady s.thread_pool
    → s.next_conn_id + length cs ≤ 2147483647
    → (s' : TcpServer) × (take_all cs s ≡ some s')
      × IsReady s'.thread_pool
      × (sockets s'.posts ≡ sockets s.posts ++ descriptors cs)
unfolding take_all
take_all-IsReady [] s v h = (s, refl, v, sym (append-nil (sockets s.posts)))
take_all-IsReady ((sockfd, peer) ∷ cs) s v h =
    let (t, e, w, n, k) = new_connection-IsReady sockfd s v (omega arith) in
    let (s', e', w', k') = take_all-IsReady cs t w (omega (arith, n)) in
    (
      s',
      take_all_next sockfd peer cs s t e ∙ e',
      w',
      cc (k, k', append_assoc (sockets s.posts) (sockfd ∷ []) (descriptors cs)),
    )

-- A server takes every connection that arrives before the first failure, 10000 at most: it does not
-- fail, the functors that establish them are posted in order, and the pool is ready as before. The
-- conditions are that the pool was started and its index is at one of its loops, if it has any, that
-- the acceptor has the callback, and that the numbers of the connections stay below the largest
-- `int`.
pub handle_read-IsReady :
    (accept4 : ℕ → Answer) (again opened : Option ℕ) (s : TcpServer)
    → IsReady s.thread_pool
    → s.acceptor.has_callback ≡ true
    → s.next_conn_id + max_accept ≤ 2147483647
    → (s' : TcpServer) × (handle_read accept4 again opened s ≡ some s')
      × IsReady s'.thread_pool
      × (sockets s'.posts ≡ sockets s.posts ++ descriptors (arrivals accept4 max_accept 0))
unfolding handle_read
handle_read-IsReady accept4 again opened s v c h =
    let a = accept_read accept4 again opened (record s.acceptor { handed = [] }) in
    let (e, few) = handle_read-outcome accept4 again opened (record s.acceptor { handed = [] }) in
    let taken : a.handed ≡ arrivals accept4 max_accept 0 =
      ap (λ x. x.handed) e
      ∙ outcome-handed (arrivals accept4 max_accept 0) (failure accept4 max_accept 0) again opened
          (record s.acceptor { handed = [] }) c refl in
    let (s', k, w, p) =
      take_all-IsReady (arrivals accept4 max_accept 0) (record s { acceptor = a }) v
        (omega (arith, few)) in
    (s', ap (λ cs. take_all cs (record s { acceptor = a })) taken ∙ k, w, p)
