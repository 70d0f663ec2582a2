-- ===== src/Net/TcpServer/Lifetimes.antt =====
-- The lifetimes of a server's connections.
use tzzero_http.Prelude.{
  ℕ, ◌+◌, ◌≤◌, ◌<◌, ◌≡◌, inl, inr, refl, ap, arith, subst, Bool, true, false, ltb, Option, some,
  Option-cases, Bool-cases, List, [], ◌∷◌, ◌++◌, Bytes, ◌=?◌, =?_sound, length, ltb→lt,
}
use tzzero_http.Net.Acceptor.{Acceptor, listen, disable_listening}
use tzzero_http.Net.EventLoopThreadPool.{EventLoopThreadPool, get_next_loop, start as start_pool}
use tzzero_http.Net.TcpServer.{
  Conn, Post, establishes, destroys, TcpServer, make, start, stop, destruct, shut_all, destroy_all,
  conn_name, erase, find, assign, connect, new_connection, disconnect, remove_connection_in_loop,
  Event, starts, stops, arrives, closes, step, run,
}
use tzzero_http.Net.TcpServer.Names.{conn_name_injective}
use tzzero_http.Net.TcpServer.Counts.{
  count, established, destroyed, is_named, established-append, destroyed-append, shut_all_lem,
  destroy_all_lem, some_injective, find-erase, find-name, erase_absent,
}

-- Each connection was established once, and stays in the map until it is destroyed, on the loop on
-- which it was established; the names of the connections to come are free.
pub record IsBalanced (s : TcpServer) : Type 0 where
  pub short : length s.ip_port ≤ 51
  pub balanced :
      (q : Conn → Bool) → established q s.posts ≡ count q s.connections + destroyed q s.posts
  pub once : (n : Bytes) → established (is_named n) s.posts ≤ 1
  pub fresh :
      (id : ℕ)
      → s.next_conn_id ≤ id
      → id < 2147483648
      → established (is_named (conn_name s.name s.ip_port id)) s.posts ≡ 0

pub make-IsBalanced :
    (idle : Option ℕ) (loop port : ℕ) (listen_addr name : Bytes)
    → length (make idle loop listen_addr port name).ip_port ≤ 51
    → IsBalanced (make idle loop listen_addr port name)
unfolding make established destroyed count
make-IsBalanced idle loop port listen_addr name h = record {
  short = h;
  balanced = λ q. refl;
  once = λ n. omega arith;
  fresh = λ id l k. refl;
}

-- What the posts and the map are is all that counts.
posted-IsBalanced :
    (s t : TcpServer) (ps : List Post)
    → t.posts ≡ s.posts ++ ps
    → t.name ≡ s.name
    → t.ip_port ≡ s.ip_port
    → t.next_conn_id ≡ s.next_conn_id
    → ((q : Conn → Bool) → established q ps ≡ 0)
    → ((q : Conn → Bool) → count q t.connections + destroyed q ps ≡ count q s.connections)
    → IsBalanced s
    → IsBalanced t
posted-IsBalanced s t ps e e1 e2 e3 h k v = record {
  short = rw e2 v.short;
  balanced = λ q. rw e (
      omega (
        arith,
        v.balanced q,
        h q,
        k q,
        established-append q s.posts ps,
        destroyed-append q s.posts ps,
      ));
  once = λ n.
      rw e (omega (arith, v.once n, h (is_named n), established-append (is_named n) s.posts ps));
  fresh = λ id l u.
      rw (e, e1, e2)
        (omega (
          arith,
          v.fresh id (rw e3 at l) u,
          h (is_named (conn_name s.name s.ip_port id)),
          established-append (is_named (conn_name s.name s.ip_port id)) s.posts ps,
        ));
}

name_differs :
    (s : TcpServer) (a b : ℕ)
    → length s.ip_port ≤ 51
    → a < b
    → b < 2147483648
    → (conn_name s.name s.ip_port a =? conn_name s.name s.ip_port b) ≡ false
name_differs s a b h l u =
    elim (Bool-cases (conn_name s.name s.ip_port a =? conn_name s.name s.ip_port b)) [
      | inl e ↦ absurd (
          omega (
            arith,
            conn_name_injective s.name s.ip_port a b h (omega arith) u
                (=?_sound (conn_name s.name s.ip_port a) (conn_name s.name s.ip_port b) e),
          ))
      | inr e ↦ e
    ]

connect-IsBalanced :
    (sockfd io_loop : ℕ) (pool : EventLoopThreadPool) (s : TcpServer)
    → s.next_conn_id < 2147483647
    → IsBalanced s
    → IsBalanced (connect sockfd io_loop pool s)
unfolding connect assign established destroyed count
connect-IsBalanced sockfd io_loop pool s l v =
    let n = conn_name s.name s.ip_port s.next_conn_id in
    let c : Conn = record { name = n; io_loop = io_loop; socket = sockfd } in
    let free = v.fresh s.next_conn_id (omega arith) (omega arith) in
    let absent = erase_absent n s.connections (omega (arith, free, v.balanced (is_named n))) in
    record {
      short = v.short;
      balanced = λ q. rw absent (
          ground (
            arith,
            v.balanced q,
            established-append q s.posts (establishes c ∷ []),
            destroyed-append q s.posts (establishes c ∷ []),
          ));
      once = λ m. elim (Bool-cases (n =? m)) [
        | inl e ↦
            let none_yet : established (is_named m) s.posts ≡ 0 =
              subst (λ k. established (is_named k) s.posts ≡ 0) (=?_sound n m e) free in
            ground
              (arith, e, none_yet, established-append (is_named m) s.posts (establishes c ∷ []))
        | inr e ↦
            ground
              (arith, e, v.once m, established-append (is_named m) s.posts (establishes c ∷ []))
      ];
      fresh = λ id k u. ground (
        arith,
        name_differs s s.next_conn_id id v.short (omega arith) u,
        v.fresh id (omega arith) u,
        established-append (is_named (conn_name s.name s.ip_port id)) s.posts (establishes c ∷ []),
      );
    }

disconnect-IsBalanced :
    (n : Bytes) (c : Conn) (s : TcpServer)
    → find n s.connections ≡ some c
    → IsBalanced s
    → IsBalanced (disconnect c s)
unfolding disconnect established destroyed count
disconnect-IsBalanced n c s h v =
    posted-IsBalanced s (disconnect c s) (destroys c ∷ []) refl refl refl refl (λ q. refl)
      (λ q. ground (
        arith,
        ap (λ m. count q (erase m s.connections)) (find-name n s.connections c h),
        find-erase q n s.connections c h,
      ))
      v

pub stop-IsBalanced : (s t : TcpServer) → stop s ≡ some t → IsBalanced s → IsBalanced t
unfolding stop
stop-IsBalanced s t h v = elim (Option-cases (disable_listening s.acceptor)) [
  | inl q ↦ absurd (cc (rw (q, stop) at h))
  | inr (a, q) ↦ subst IsBalanced (some_injective (rw (q, stop) at h)) (
      posted-IsBalanced s (record s { acceptor = a; posts = s.posts ++ shut_all s.connections })
        (shut_all s.connections) refl refl refl refl (λ p. (shut_all_lem p s.connections).0)
        (λ p. omega (arith, (shut_all_lem p s.connections).1)) v)
]

started-IsBalanced :
    (s : TcpServer) (pool : EventLoopThreadPool) (a : Acceptor)
    → IsBalanced s
    → IsBalanced (record s { started = true; thread_pool = pool; acceptor = a })
started-IsBalanced s pool a v = record {
  short = v.short;
  balanced = v.balanced;
  once = v.once;
  fresh = v.fresh;
}

pub start-IsBalanced :
    (loop_of : ℕ → ℕ) (bound : Bool) (s t : TcpServer)
    → start loop_of bound s ≡ some t
    → IsBalanced s
    → IsBalanced t
unfolding start
start-IsBalanced loop_of bound s t h v = elim (Bool-cases s.started) [
  | inl e ↦
      subst IsBalanced (some_injective (rw e at h))
        (started-IsBalanced s s.thread_pool s.acceptor v)
  | inr e ↦ elim (Option-cases (start_pool loop_of true false s.thread_pool)) [
    | inl q ↦ absurd (cc (rw (e, q) at h))
    | inr ((pool, ran), q) ↦ elim (Bool-cases s.acceptor.listening) [
      | inl b ↦ absurd (cc (rw (e, q, b) at h))
      | inr b ↦ elim (Option-cases (listen bound s.acceptor)) [
        | inl r ↦ absurd (cc (rw (e, q, r, b) at h))
        | inr (a, r) ↦
            subst IsBalanced (some_injective (rw (e, q, r, b) at h)) (started-IsBalanced s pool a v)
      ]
    ]
  ]
]

pub new_connection-IsBalanced :
    (sockfd : ℕ) (s t : TcpServer) → new_connection sockfd s ≡ some t → IsBalanced s → IsBalanced t
unfolding new_connection
new_connection-IsBalanced sockfd s t h v = elim (Bool-cases (ltb s.next_conn_id 2147483647)) [
  | inl e ↦ elim (Option-cases (get_next_loop s.thread_pool)) [
    | inl q ↦ absurd (cc (rw (e, q) at h))
    | inr ((io_loop, pool), q) ↦
        subst IsBalanced (some_injective (rw (e, q) at h))
          (connect-IsBalanced sockfd io_loop pool s (ltb→lt s.next_conn_id 2147483647 e) v)
  ]
  | inr e ↦ absurd (cc (rw e at h))
]

pub remove_connection_in_loop-IsBalanced :
    (n : Bytes) (s t : TcpServer)
    → remove_connection_in_loop n s ≡ some t
    → IsBalanced s
    → IsBalanced t
unfolding remove_connection_in_loop
remove_connection_in_loop-IsBalanced n s t h v = elim (Option-cases (find n s.connections)) [
  | inl q ↦ absurd (cc (rw (q, remove_connection_in_loop) at h))
  | inr (c, q) ↦
      subst IsBalanced (some_injective (rw (q, remove_connection_in_loop) at h))
        (disconnect-IsBalanced n c s q v)
]

step-IsBalanced : (e : Event) (s t : TcpServer) → step e s ≡ some t → IsBalanced s → IsBalanced t
unfolding step
step-IsBalanced (starts loop_of bound) s t h v = start-IsBalanced loop_of bound s t h v
step-IsBalanced stops s t h v = stop-IsBalanced s t h v
step-IsBalanced (arrives sockfd) s t h v = new_connection-IsBalanced sockfd s t h v
step-IsBalanced (closes n) s t h v = remove_connection_in_loop-IsBalanced n s t h v

-- Whatever happens in the thread of the server's loop, each connection that the server made was
-- established once, under a name of its own, and is either in the map or was destroyed, once and on
-- the same loop. The condition is that the address and the port take 51 characters at most, since the
-- name's buffer has room for 63.
pub run-IsBalanced :
    (es : List Event) (s t : TcpServer) → IsBalanced s → run es s ≡ some t → IsBalanced t
unfolding run
run-IsBalanced [] s t v h = subst IsBalanced (some_injective h) v
run-IsBalanced (e ∷ es) s t v h = elim (Option-cases (step e s)) [
  | inl q ↦ absurd (cc (rw (q, run) at h))
  | inr (u, q) ↦ run-IsBalanced es u t (step-IsBalanced e s u q v) (rw (q, run) at h)
]

-- After the destructor of a server that only such steps led to, each connection was established and
-- destroyed exactly as often as the other, with whatever loop, socket and name it has.
pub destruct_lem :
    (q : Conn → Bool) (s : TcpServer)
    → IsBalanced s
    → established q (destruct s).posts ≡ destroyed q (destruct s).posts
unfolding destruct
destruct_lem q s v = omega (
  arith,
  v.balanced q,
  established-append q s.posts (destroy_all s.connections),
  destroyed-append q s.posts (destroy_all s.connections),
  destroy_all_lem q s.connections,
)
