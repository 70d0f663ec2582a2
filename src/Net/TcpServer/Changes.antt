-- ===== src/Net/TcpServer/Changes.antt =====
-- What the steps of a server do to its map and to its posts.
use tzzero_http.Prelude.{
  ℕ, ◌≡◌, inl, inr, refl, sym, ap, ◌∙◌, arith, Bool, true, false, ltb, some, Option-cases,
  Bool-cases, [], ◌∷◌, ◌++◌, Bytes, ltb→lt,
}
use tzzero_http.Net.Acceptor.{listen, disable_listening}
use tzzero_http.Net.EventLoopThreadPool.{get_next_loop, start as start_pool}
use tzzero_http.Net.TcpServer.{
  Conn, establishes, destroys, TcpServer, start, stop, shut_all, conn_name, erase, find, assign,
  connect, new_connection, disconnect, remove_connection_in_loop,
}
use tzzero_http.Net.TcpServer.Counts.{is_named, some_injective, erase_absent, find-name}
use tzzero_http.Net.TcpServer.Lifetimes.{IsBalanced}

pub start_keeps :
    (loop_of : ℕ → ℕ) (bound : Bool) (s t : TcpServer)
    → start loop_of bound s ≡ some t
    → (t.connections ≡ s.connections) × (t.posts ≡ s.posts)
unfolding start
start_keeps loop_of bound s t h = elim (Bool-cases s.started) [
  | inl e ↦ ground (arith, e)
  | inr e ↦ elim (Option-cases (start_pool loop_of true false s.thread_pool)) [
    | inl q ↦ absurd (cc (rw (e, q) at h))
    | inr ((pool, ran), q) ↦ elim (Bool-cases s.acceptor.listening) [
      | inl b ↦ absurd (cc (rw (e, q, b) at h))
      | inr b ↦ elim (Option-cases (listen bound s.acceptor)) [
        | inl r ↦ absurd (cc (rw (e, q, r, b) at h))
        | inr (a, r) ↦
            let same = some_injective (rw (e, q, r, b) at h) in
            (ap (λ u. u.connections) (sym same), ap (λ u. u.posts) (sym same))
      ]
    ]
  ]
]

pub stop_keeps :
    (s t : TcpServer)
    → stop s ≡ some t
    → (t.connections ≡ s.connections) × (t.posts ≡ s.posts ++ shut_all s.connections)
unfolding stop
stop_keeps s t h = elim (Option-cases (disable_listening s.acceptor)) [
  | inl q ↦ absurd (cc (rw (q, stop) at h))
  | inr (a, q) ↦
      let same = some_injective (rw (q, stop) at h) in
      (ap (λ u. u.connections) (sym same), ap (λ u. u.posts) (sym same))
]

pub new_connection_adds :
    (sockfd : ℕ) (s t : TcpServer)
    → IsBalanced s
    → new_connection sockfd s ≡ some t
    → (c : Conn) × (c.name ≡ conn_name s.name s.ip_port s.next_conn_id)
      × (t.connections ≡ c ∷ s.connections)
      × (t.posts ≡ s.posts ++ establishes c ∷ [])
unfolding new_connection connect assign
new_connection_adds sockfd s t v h = elim (Bool-cases (ltb s.next_conn_id 2147483647)) [
  | inl e ↦ elim (Option-cases (get_next_loop s.thread_pool)) [
    | inl q ↦ absurd (cc (rw (e, q) at h))
    | inr ((io_loop, pool), q) ↦
        let n = conn_name s.name s.ip_port s.next_conn_id in
        let l = ltb→lt s.next_conn_id 2147483647 e in
        let free = v.fresh s.next_conn_id (omega arith) (omega arith) in
        let same = some_injective (rw (e, q) at h) in
        (
          record { name = n; io_loop = io_loop; socket = sockfd },
          refl,
          ap (λ u. u.connections) (sym same)
              ∙ ap (λ ks. record { name = n; io_loop = io_loop; socket = sockfd } ∷ ks)
                  (erase_absent n s.connections (omega (arith, free, v.balanced (is_named n)))),
          ap (λ u. u.posts) (sym same),
        )
  ]
  | inr e ↦ absurd (cc (rw e at h))
]

pub remove_connection_in_loop_drops :
    (n : Bytes) (s t : TcpServer)
    → remove_connection_in_loop n s ≡ some t
    → (c : Conn) × (find n s.connections ≡ some c)
      × (t.connections ≡ erase n s.connections)
      × (t.posts ≡ s.posts ++ destroys c ∷ [])
unfolding remove_connection_in_loop disconnect
remove_connection_in_loop_drops n s t h = elim (Option-cases (find n s.connections)) [
  | inl q ↦ absurd (cc (rw (q, remove_connection_in_loop) at h))
  | inr (c, q) ↦
      let same = some_injective (rw (q, remove_connection_in_loop) at h) in
      (
        c,
        q,
        ap (λ u. u.connections) (sym same)
            ∙ ap (λ m. erase m s.connections) (find-name n s.connections c q),
        ap (λ u. u.posts) (sym same),
      )
]
