-- ===== src/Net/Service/Removals.antt =====
-- The connections that close, and their removal from the server's map.
use tzzero_http.Prelude.{
  ℕ, ◌+◌, ◌≤◌, ◌<◌, ◌≡◌, refl, sym, ap, ◌∙◌, arith, subst, inl, inr, Bool, false, Option, some,
  Option-cases, List, [], ◌∷◌, Bytes, ◌=?◌, =?_refl, length,
}
use tzzero_http.Net.Connection.{Connection, make as make_connection}
use tzzero_http.Net.Connection.Closed.{close_calls_once}
use tzzero_http.Net.Connection.Events.{Event as ConnectionEvent, step as step_connection}
use tzzero_http.Net.Connection.Watching.{IsConsistent, step-IsConsistent}
use tzzero_http.Net.TcpServer.{
  Conn, establishes, destroys, TcpServer, make as make_server, shut_all, start, stop,
  new_connection, find, disconnect, remove_connection_in_loop,
}
use tzzero_http.Net.TcpServer.Changes.{
  start_keeps, stop_keeps, new_connection_adds, remove_connection_in_loop_drops,
}
use tzzero_http.Net.TcpServer.Counts.{
  count, established, is_named, established-append, shut_all_lem, find-erase, find-name,
}
use tzzero_http.Net.TcpServer.Lifetimes.{
  IsBalanced, make-IsBalanced, start-IsBalanced, stop-IsBalanced, new_connection-IsBalanced,
  remove_connection_in_loop-IsBalanced,
}
use tzzero_http.Net.Service.{
  Service, make, find_object, arrive, changed, happen, remove_next, with_server, Event, starts,
  stops, removes, arrives, happens, step, run,
}
use tzzero_http.Net.Service.Objects.{
  live, named, queued, queued-append, AllConsistent, find_object-IsConsistent,
  set_object-AllConsistent, named-set_object, live-set_object, absent_lem,
}

-- The server's map has exactly the connections that have not closed, and those that have and wait to
-- be removed.
pub record IsAccounted (v : Service) : Type 0 where
  pub server : IsBalanced v.server
  pub consistent : AllConsistent v.objects
  pub held :
      (n : Bytes) → count (is_named n) v.server.connections ≡ live n v.objects + queued n v.removals
  pub known : (n : Bytes) → named n v.objects ≡ established (is_named n) v.server.posts

some_injective : {a b : Service} → some a ≡ some b → a ≡ b
some_injective h = cc

pub make-IsAccounted :
    (idle : Option ℕ) (loop port : ℕ) (listen_addr name : Bytes)
    → length (make_server idle loop listen_addr port name).ip_port ≤ 51
    → IsAccounted (make (make_server idle loop listen_addr port name))
unfolding make make_server count live named queued established
make-IsAccounted idle loop port listen_addr name h = record {
  server = make-IsBalanced idle loop port listen_addr name h;
  consistent = tt;
  held = λ n. refl;
  known = λ n. refl;
}

make_connection-IsConsistent : (w h : Bool) → IsConsistent (make_connection w h)
unfolding make_connection
make_connection-IsConsistent w h = record { watched = refl; notified = refl }

arrive-IsAccounted :
    (w : Bool) (sockfd : ℕ) (v v' : Service)
    → IsAccounted v
    → arrive w sockfd v ≡ some v'
    → IsAccounted v'
unfolding arrive count live named established make_connection
arrive-IsAccounted w sockfd v v' a h = elim (Option-cases (new_connection sockfd v.server)) [
  | inl q ↦ absurd (cc (rw (q, arrive) at h))
  | inr (t, q) ↦
      let (c, called, ks, ps) = new_connection_adds sockfd v.server t a.server q in
      subst IsAccounted (some_injective (rw (q, arrive) at h)) (record {
        server = new_connection-IsBalanced sockfd v.server t q a.server;
        consistent = (make_connection-IsConsistent w false, a.consistent);
        held = λ n. rw (ks, sym called) (ground (arith, a.held n));
        known = λ n.
            rw (ps, sym called)
              (ground (
                arith,
                a.known n,
                established-append (is_named n) v.server.posts (establishes c ∷ []),
              ));
      })
]

changed-IsAccounted :
    (n : Bytes) (e : ConnectionEvent) (c c' : Connection) (v : Service)
    → find_object n v.objects ≡ some c
    → step_connection e c ≡ some c'
    → IsAccounted v
    → IsAccounted (changed n c c' v)
unfolding changed queued
changed-IsAccounted n e c c' v f h a =
    let was = find_object-IsConsistent n v.objects c f a.consistent in
    record {
      server = a.server;
      consistent =
          set_object-AllConsistent n c' v.objects (step-IsConsistent e c c' was h) a.consistent;
      held = λ k. ground (
        arith,
        a.held k,
        close_calls_once e c c' was h,
        live-set_object k n c c' v.objects f,
        queued-append k n v.removals,
      );
      known = λ k. named-set_object k n c' v.objects ∙ a.known k;
    }

happen-IsAccounted :
    (n : Bytes) (e : ConnectionEvent) (v v' : Service)
    → IsAccounted v
    → happen n e v ≡ some v'
    → IsAccounted v'
unfolding happen
happen-IsAccounted n e v v' a h = elim (Option-cases (find_object n v.objects)) [
  | inl q ↦ absurd (cc (rw (q, happen) at h))
  | inr (c, q) ↦ elim (Option-cases (step_connection e c)) [
    | inl r ↦ absurd (cc (rw (q, r, happen) at h))
    | inr (c', r) ↦
        subst IsAccounted (some_injective (rw (q, r, happen) at h))
          (changed-IsAccounted n e c c' v q r a)
  ]
]

at_front : (n : Bytes) (ns : List Bytes) → 0 < queued n (n ∷ ns)
unfolding queued
at_front n ns = rw (=?_refl n) (omega arith)

-- While a removal waits, the server's map has its connection.
pub removal_found :
    (n : Bytes) (ns : List Bytes) (v : Service)
    → IsAccounted v
    → v.removals ≡ n ∷ ns
    → (c : Conn) × (find n v.server.connections ≡ some c)
unfolding queued
removal_found n ns v a e = elim (Option-cases (find n v.server.connections)) [
  | inl q ↦
      absurd (
        omega
          (arith, absent_lem n v.server.connections q, a.held n, at_front n ns, ap (queued n) e))
  | inr found ↦ found
]

removed-IsAccounted :
    (n : Bytes) (ns : List Bytes) (v : Service) (t : TcpServer)
    → v.removals ≡ n ∷ ns
    → remove_connection_in_loop n v.server ≡ some t
    → IsAccounted v
    → IsAccounted (record v { server = t; removals = ns })
unfolding established count queued
removed-IsAccounted n ns v t e h a =
    let (c, found, ks, ps) = remove_connection_in_loop_drops n v.server t h in
    let called = find-name n v.server.connections c found in
    record {
      server = remove_connection_in_loop-IsBalanced n v.server t h a.server;
      consistent = a.consistent;
      held = λ k. rw ks (
          ground (
            arith,
            a.held k,
            ap (queued k) e,
            ap (λ m. m =? k) called,
            find-erase (is_named k) n v.server.connections c found,
          ));
      known = λ k. rw ps (
          ground
            (arith, a.known k, established-append (is_named k) v.server.posts (destroys c ∷ [])));
    }

remove_next-IsAccounted :
    (ns : List Bytes) (v v' : Service)
    → v.removals ≡ ns
    → IsAccounted v
    → remove_next ns v ≡ some v'
    → IsAccounted v'
unfolding remove_next
remove_next-IsAccounted [] v v' e a h = subst IsAccounted (some_injective h) a
remove_next-IsAccounted (n ∷ ns) v v' e a h =
    elim (Option-cases (remove_connection_in_loop n v.server)) [
      | inl q ↦ absurd (cc (rw (q, remove_next) at h))
      | inr (t, q) ↦
          subst IsAccounted (some_injective (rw (q, remove_next) at h))
            (removed-IsAccounted n ns v t e q a)
    ]

starts-IsAccounted :
    (loop_of : ℕ → ℕ) (bound : Bool) (v v' : Service)
    → IsAccounted v
    → with_server (start loop_of bound v.server) v ≡ some v'
    → IsAccounted v'
unfolding with_server
starts-IsAccounted loop_of bound v v' a h = elim (Option-cases (start loop_of bound v.server)) [
  | inl q ↦ absurd (cc (rw (q, with_server) at h))
  | inr (t, q) ↦
      let (ks, ps) = start_keeps loop_of bound v.server t q in
      subst IsAccounted (some_injective (rw (q, with_server) at h)) (record {
        server = start-IsBalanced loop_of bound v.server t q a.server;
        consistent = a.consistent;
        held = λ n. rw ks (a.held n);
        known = λ n. rw ps (a.known n);
      })
]

stops-IsAccounted :
    (v v' : Service) → IsAccounted v → with_server (stop v.server) v ≡ some v' → IsAccounted v'
unfolding with_server
stops-IsAccounted v v' a h = elim (Option-cases (stop v.server)) [
  | inl q ↦ absurd (cc (rw (q, with_server) at h))
  | inr (t, q) ↦
      let (ks, ps) = stop_keeps v.server t q in
      subst IsAccounted (some_injective (rw (q, with_server) at h)) (record {
        server = stop-IsBalanced v.server t q a.server;
        consistent = a.consistent;
        held = λ n. rw ks (a.held n);
        known = λ n. rw ps (
            omega (
              arith,
              a.known n,
              established-append (is_named n) v.server.posts (shut_all v.server.connections),
              shut_all_lem (is_named n) v.server.connections,
            ));
      })
]

step-IsAccounted :
    (e : Event) (v v' : Service) → IsAccounted v → step e v ≡ some v' → IsAccounted v'
unfolding step
step-IsAccounted (starts loop_of bound) v v' a h = starts-IsAccounted loop_of bound v v' a h
step-IsAccounted stops v v' a h = stops-IsAccounted v v' a h
step-IsAccounted removes v v' a h = remove_next-IsAccounted v.removals v v' refl a h
step-IsAccounted (arrives w sockfd) v v' a h = arrive-IsAccounted w sockfd v v' a h
step-IsAccounted (happens n e) v v' a h = happen-IsAccounted n e v v' a h

pub run-IsAccounted :
    (es : List Event) (v v' : Service) → IsAccounted v → run es v ≡ some v' → IsAccounted v'
unfolding run
run-IsAccounted [] v v' a h = subst IsAccounted (some_injective h) a
run-IsAccounted (e ∷ es) v v' a h = elim (Option-cases (step e v)) [
  | inl q ↦ absurd (cc (rw (q, run) at h))
  | inr (u, q) ↦ run-IsAccounted es u v' (step-IsAccounted e v u a q) (rw (q, run) at h)
]

remove_next_found :
    (n : Bytes) (ns : List Bytes) (v : Service) (c : Conn)
    → find n v.server.connections ≡ some c
    → remove_next (n ∷ ns) v ≡ some (record v { server = disconnect c v.server; removals = ns })
unfolding remove_next remove_connection_in_loop
remove_next_found n ns v c found = rw (found, remove_next, remove_connection_in_loop) refl

-- Whatever happens to a server and its connections, in whatever order, from a state that is accounted
-- for, such as a new server's: where a closed connection waits to be removed, the assertion of
-- `remove_connection_in_loop` holds, and one removal less waits after it.
pub removal_succeeds :
    (es : List Event) (v v' : Service) (n : Bytes) (ns : List Bytes)
    → IsAccounted v
    → run es v ≡ some v'
    → v'.removals ≡ n ∷ ns
    → (w : Service) × (step removes v' ≡ some w) × (w.removals ≡ ns)
unfolding step
removal_succeeds es v v' n ns a h e =
    let (c, found) = removal_found n ns v' (run-IsAccounted es v v' a h) e in
    (
      record v' { server = disconnect c v'.server; removals = ns },
      ap (λ r. remove_next r v') e ∙ remove_next_found n ns v' c found,
      refl,
    )
