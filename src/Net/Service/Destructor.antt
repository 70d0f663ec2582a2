-- ===== src/Net/Service/Destructor.antt =====
-- The destructor of a server whose loop is the only one.
use tzzero_http.Prelude.{
  suc, ◌≤◌, ◌<◌, ◌≡◌, ◌⊎◌, refl, sym, ap, ◌∙◌, arith, subst, inl, inr, true, false, ltb, none, some,
  Option-cases, Bool-cases, List, [], ◌∷◌, ◌++◌, Bytes, =?_refl,
}
use tzzero_http.Net.Connection.{
  Connection, connection_destroyed, destructs, is_connected, disconnected,
}
use tzzero_http.Net.Connection.Watching.{IsConsistent}
use tzzero_http.Net.TcpServer.{
  Conn, destroys, TcpServer, find, erase, disconnect, remove_connection_in_loop,
}
use tzzero_http.Net.TcpServer.Counts.{count, is_named, find-erase, find-name}
use tzzero_http.Net.Service.{
  Service, find_object, set_object, Destruction, completed, iterator_invalid, aborts,
  run_close_callback, destroy_each, give_up, give_up_all, destruct_alone,
}
use tzzero_http.Net.Service.Objects.{live, queued, find_object-live, find_object-IsConsistent}
use tzzero_http.Net.Service.Removals.{IsAccounted}

-- A call of `connection_destroyed` that does not close leaves the connection as it is.
destroyed_same :
    (c c' : Connection)
    → connection_destroyed c ≡ some c'
    → ltb c.close_calls c'.close_calls ≡ false
    → c' ≡ c
unfolding connection_destroyed
destroyed_same c c' h l = ground arith

set_object_same :
    (n : Bytes) (c : Connection) (os : List (Bytes × Connection))
    → find_object n os ≡ some c
    → set_object n c os ≡ os
unfolding find_object set_object
set_object_same n c [] h = refl
set_object_same n c ((m, d) ∷ os) h = ground (arith, set_object_same n c os)

counted_front : (k : Conn) (ks : List Conn) → 0 < count (is_named k.name) (k ∷ ks)
unfolding count
counted_front k ks = rw (=?_refl k.name) (omega arith)

some_injective : {a b : TcpServer} → some a ≡ some b → a ≡ b
some_injective h = cc

find_absent : (n : Bytes) (cs : List Conn) → count (is_named n) cs ≡ 0 → find n cs ≡ none
unfolding find count
find_absent n [] h = refl
find_absent n (c ∷ cs) h = ground (arith, find_absent n cs)

-- A map with each name at most once.
AllOnce : TcpServer → Type 0
AllOnce s = (n : Bytes) → count (is_named n) s.connections ≤ 1

-- What is removed from such a map is gone.
removed_gone :
    (n : Bytes) (s s' : TcpServer)
    → AllOnce s
    → remove_connection_in_loop n s ≡ some s'
    → find n s'.connections ≡ none
unfolding AllOnce remove_connection_in_loop disconnect
removed_gone n s s' o h = elim (Option-cases (find n s.connections)) [
  | inl q ↦ absurd (cc (rw (q, remove_connection_in_loop) at h))
  | inr (c, q) ↦
      let named : c.name ≡ n = find-name n s.connections c q in
      let one : 0 < count (is_named n) (c ∷ []) =
        subst (λ m. 0 < count (is_named m) (c ∷ [])) named (counted_front c []) in
      let rest : count (is_named n) (erase n s.connections) ≡ 0 =
        omega (arith, find-erase (is_named n) n s.connections c q, o n, one) in
      let gone = find_absent n (erase n s.connections) rest in
      let after = some_injective (rw (q, remove_connection_in_loop) at h) in
      sym (ap (λ t. find n (TcpServer.connections t)) after)
      ∙ ap (λ m. find n (erase m s.connections)) named
      ∙ gone
]

-- The loop over such a map leaves all as it is, or it does not come to its end.
Ends : Service → Destruction → Type 0
Ends v d = (d ≡ completed v) ⊎ ((w : Service) × (d ≡ iterator_invalid w)) ⊎ (d ≡ aborts)

destroy_each-Ends : (ks : List Conn) (v : Service) → AllOnce v.server → Ends v (destroy_each ks v)
unfolding destroy_each Ends run_close_callback
destroy_each-Ends [] v o = inl refl
destroy_each-Ends (k ∷ ks) v o = elim (Option-cases (find_object k.name v.objects)) [
  | inl q ↦ inr (inr (rw (q, destroy_each) refl))
  | inr (c, q) ↦ elim (Option-cases (connection_destroyed c)) [
    | inl r ↦ inr (inr (rw (q, r, destroy_each) refl))
    | inr (c', r) ↦ elim (Bool-cases (ltb c.close_calls c'.close_calls)) [
      | inl l ↦ elim (Option-cases (remove_connection_in_loop k.name v.server)) [
        | inl m ↦ inr (inr (rw (q, r, l, m, destroy_each) refl))
        | inr (s, m) ↦
            let gone = removed_gone k.name v.server s o m in
            inr (
              inl (
                record v { server = s; objects = set_object k.name c' v.objects },
                rw (q, r, l, m, gone, destroy_each) refl,
              ))
      ]
      | inr l ↦ elim (Option-cases (find k.name v.server.connections)) [
        | inl f ↦ inr (
            inl (
              record v { objects = set_object k.name c' v.objects },
              rw (q, r, l, f, destroy_each) refl,
            ))
        | inr (here, f) ↦
            let same =
              ap (λ d. set_object k.name d v.objects) (destroyed_same c c' r l)
              ∙ set_object_same k.name c v.objects q in
            let on : destroy_each (k ∷ ks) v ≡ destroy_each ks v =
              rw (q, r, l, f, destroy_each) refl
              ∙ ap (λ os. destroy_each ks (record v { objects = os })) same in
            subst (Ends v) (sym on) (destroy_each-Ends ks v o)
      ]
    ]
  ]
]

closed_now : Connection → Connection
closed_now c = record c { state = disconnected; interest = none; close_calls = suc c.close_calls }

-- A connection that is connected calls its close callback when it is destroyed.
closes_now :
    (c : Connection)
    → IsConsistent c
    → is_connected c.state ≡ true
    → connection_destroyed c ≡ some (closed_now c)
unfolding connection_destroyed closed_now
closes_now c v e = elim (Option-cases c.interest) [
  | inl q ↦ absurd (ground (arith, v.watched))
  | inr (i, q) ↦ ground arith
]

one_more : (c : Connection) → ltb c.close_calls (closed_now c).close_calls ≡ true
unfolding closed_now
one_more c = ground arith

-- One that has not called it, and does not call it then, is not in the state that its destructor
-- asserts.
destructs_not :
    (c : Connection)
    → IsConsistent c
    → c.close_calls ≡ 0
    → is_connected c.state ≡ false
    → destructs c ≡ false
unfolding destructs
destructs_not c v z e = ground (arith, v.notified)

refuses :
    (k : Conn) (ks : List Conn) (os : List (Bytes × Connection)) (c : Connection)
    → find_object k.name os ≡ some c
    → destructs c ≡ false
    → give_up (k ∷ ks) os ≡ false
unfolding give_up
refuses k ks os c q d = rw (q, d, give_up) refl

give_up_all-Ends :
    (v : Service) (d : Destruction)
    → Ends v d
    → give_up v.server.connections v.objects ≡ false
    → ((w : Service) × (give_up_all d ≡ iterator_invalid w)) ⊎ (give_up_all d ≡ aborts)
unfolding Ends give_up_all
give_up_all-Ends v d (inl e) g = inr (ap give_up_all e ∙ rw (g, give_up_all) refl)
give_up_all-Ends v d (inr (inl (w, e))) g = inl (w, ap give_up_all e)
give_up_all-Ends v d (inr (inr e)) g = inr (ap give_up_all e)

-- The service behind the close callback of the first connection.
erased : Conn → List Conn → Connection → Service → Service
erased k ks c v = record v {
  server = record v.server { connections = ks; posts = v.server.posts ++ destroys k ∷ [] };
  objects = set_object k.name (closed_now c) v.objects;
}

removes_front :
    (k : Conn) (ks : List Conn) (s : TcpServer)
    → s.connections ≡ k ∷ ks
    → remove_connection_in_loop k.name s
      ≡ some (record s { connections = ks; posts = s.posts ++ destroys k ∷ [] })
unfolding remove_connection_in_loop find erase disconnect
removes_front k ks s e =
    let found : find k.name s.connections ≡ some k =
      ap (find k.name) e ∙ rw (=?_refl k.name) refl in
    let left : erase k.name s.connections ≡ ks = ap (erase k.name) e ∙ rw (=?_refl k.name) refl in
    rw (found, remove_connection_in_loop) refl
    ∙ ap (λ cs. some (record s { connections = cs; posts = s.posts ++ destroys k ∷ [] })) left

erases_current :
    (k : Conn) (ks : List Conn) (v : Service) (c : Connection)
    → find_object k.name v.objects ≡ some c
    → IsConsistent c
    → is_connected c.state ≡ true
    → v.server.connections ≡ k ∷ ks
    → find k.name ks ≡ none
    → destruct_alone v ≡ iterator_invalid (erased k ks c v)
unfolding destruct_alone erased give_up_all run_close_callback
erases_current k ks v c q a s e f =
    let r = closes_now c a s in
    let l = one_more c in
    let m = removes_front k ks v.server e in
    let stuck : destroy_each (k ∷ ks) v ≡ iterator_invalid (erased k ks c v) =
      rw (q, r, l, m, f, destroy_each, erased) refl in
    ap (λ cs. give_up_all (destroy_each cs v)) e ∙ ap give_up_all stuck

-- Where the server's loop is the only one, the destructor of a server that is accounted for, such as
-- one that comes of any run from a new server, and that has a connection and no removal due, does not
-- complete. If the first connection of the map is connected, its close callback erases it, and the
-- rest of the map stays, while the loop over the map stands on it. If it is not, the process ends, or
-- the loop comes to stand on an element that was erased.
pub destruct_alone_undefined :
    (v : Service) (k : Conn) (ks : List Conn)
    → IsAccounted v
    → v.removals ≡ []
    → v.server.connections ≡ k ∷ ks
    → (c : Connection) × (find_object k.name v.objects ≡ some c)
      × (((is_connected c.state ≡ true)
            × ((w : Service) × (destruct_alone v ≡ iterator_invalid w)
                × (w.server.connections ≡ ks)
                × (find k.name ks ≡ none)))
          ⊎ ((is_connected c.state ≡ false)
              × (((w : Service) × (destruct_alone v ≡ iterator_invalid w))
                  ⊎ (destruct_alone v ≡ aborts))))
unfolding queued destruct_alone erased AllOnce
destruct_alone_undefined v k ks a r e =
    let once : AllOnce v.server =
      λ n. omega (arith, a.server.balanced (is_named n), a.server.once n) in
    let front : 0 < count (is_named k.name) v.server.connections =
      subst (λ l. 0 < count (is_named k.name) l) (sym e) (counted_front k ks) in
    let here : 0 < live k.name v.objects =
      omega (arith, front, a.held k.name, ap (queued k.name) r) in
    let (c, q, z) =
      find_object-live k.name v.objects
        (subst (λ m. m ≤ 1) (sym (a.known k.name)) (a.server.once k.name)) here in
    let w = find_object-IsConsistent k.name v.objects c q a.consistent in
    let gone : find k.name ks ≡ none =
      removed_gone k.name v.server _ once (removes_front k ks v.server e) in
    (
      c,
      q,
      elim (Bool-cases (is_connected c.state)) [
        | inl s ↦ inl (s, (erased k ks c v, erases_current k ks v c q w s e gone, refl, gone))
        | inr s ↦
            let refused = refuses k ks v.objects c q (destructs_not c w z s) in
            inr (
              s,
              give_up_all-Ends v (destroy_each v.server.connections v)
                  (destroy_each-Ends v.server.connections v once)
                  (ap (λ l. give_up l v.objects) e ∙ refused),
            )
      ],
    )
