-- ===== src/Net/Service/Objects.antt =====
-- The connections of a service, counted by name.
use tzzero_http.Prelude.{
  ℕ, ◌+◌, ◌≤◌, ◌<◌, ◌≡◌, refl, arith, subst, inl, inr, ◌==◌, if◌then◌else◌, none, some, Bool-cases,
  List, [], ◌∷◌, ◌++◌, Bytes, ◌=?◌, =?_sound,
}
use tzzero_http.Net.Connection.{Connection}
use tzzero_http.Net.Connection.Watching.{IsConsistent}
use tzzero_http.Net.TcpServer.{Conn, find}
use tzzero_http.Net.TcpServer.Counts.{count, is_named}
use tzzero_http.Net.Service.{find_object, set_object}

-- 1 for a connection with this name whose close callback was not called.
abbrev pub one_live : Bytes → Bytes → Connection → ℕ
one_live n m c = if m =? n then (if c.close_calls == 0 then 1 else 0) else 0

unfoldable pub live : Bytes → List (Bytes × Connection) → ℕ
live n [] = 0
live n ((m, c) ∷ os) = one_live n m c + live n os

unfoldable pub named : Bytes → List (Bytes × Connection) → ℕ
named n [] = 0
named n ((m, c) ∷ os) = (if m =? n then 1 else 0) + named n os

unfoldable pub queued : Bytes → List Bytes → ℕ
queued n [] = 0
queued n (m ∷ ms) = (if m =? n then 1 else 0) + queued n ms

pub queued-append : (n m : Bytes) (ms : List Bytes) → queued n (ms ++ m ∷ []) ≡ queued n (m ∷ ms)
unfolding queued
queued-append n m [] = refl
queued-append n m (k ∷ ms) = ground (arith, queued-append n m ms)

abbrev pub AllConsistent : List (Bytes × Connection) → Type 0
AllConsistent [] = Unit {0}
AllConsistent ((m, c) ∷ os) = IsConsistent c × AllConsistent os

some_injective : {a b : Connection} → some a ≡ some b → a ≡ b
some_injective h = cc

pub find_object-IsConsistent :
    (n : Bytes) (os : List (Bytes × Connection)) (c : Connection)
    → find_object n os ≡ some c
    → AllConsistent os
    → IsConsistent c
unfolding find_object
find_object-IsConsistent n [] c h v = absurd (cc)
find_object-IsConsistent n ((m, d) ∷ os) c h v = elim (Bool-cases (m =? n)) [
  | inl e ↦ subst IsConsistent (some_injective (rw (e, find_object) at h)) v.0
  | inr e ↦ find_object-IsConsistent n os c (rw (e, find_object) at h) v.1
]

pub set_object-AllConsistent :
    (n : Bytes) (c : Connection) (os : List (Bytes × Connection))
    → IsConsistent c
    → AllConsistent os
    → AllConsistent (set_object n c os)
unfolding set_object
set_object-AllConsistent n c [] w v = tt
set_object-AllConsistent n c ((m, d) ∷ os) w v = elim (Bool-cases (m =? n)) [
  | inl e ↦ rw e (w, v.1)
  | inr e ↦ rw e (v.0, set_object-AllConsistent n c os w v.1)
]

pub named-set_object :
    (k n : Bytes) (c : Connection) (os : List (Bytes × Connection))
    → named k (set_object n c os) ≡ named k os
unfolding named set_object
named-set_object k n c [] = refl
named-set_object k n c ((m, d) ∷ os) = ground (arith, named-set_object k n c os)

pub live-set_object :
    (k n : Bytes) (c c' : Connection) (os : List (Bytes × Connection))
    → find_object n os ≡ some c
    → live k (set_object n c' os) + one_live k n c ≡ live k os + one_live k n c'
unfolding live set_object find_object
live-set_object k n c c' [] h = absurd (cc)
live-set_object k n c c' ((m, d) ∷ os) h = elim (Bool-cases (m =? n)) [
  | inl e ↦
      let same = =?_sound m n e in
      let found : d ≡ c = some_injective (rw (e, find_object) at h) in
      rw (e, same, found) (omega arith)
  | inr e ↦ rw e (omega (arith, live-set_object k n c c' os (rw (e, find_object) at h)))
]

live-named : (n : Bytes) (os : List (Bytes × Connection)) → live n os ≤ named n os
unfolding live named
live-named n [] = omega arith
live-named n ((m, d) ∷ os) = ground (arith, live-named n os)

-- The object of a name that one object has, and that is live.
pub find_object-live :
    (n : Bytes) (os : List (Bytes × Connection))
    → named n os ≤ 1
    → 0 < live n os
    → (c : Connection) × (find_object n os ≡ some c) × (c.close_calls ≡ 0)
unfolding find_object live named
find_object-live n [] h l = absurd (omega arith)
find_object-live n ((m, d) ∷ os) h l = elim (Bool-cases (m =? n)) [
  | inl e ↦ rw (e, find_object) (d, refl, ground (arith, e, live-named n os))
  | inr e ↦ rw (e, find_object) (find_object-live n os (ground (arith, e)) (ground (arith, e)))
]

pub absent_lem : (n : Bytes) (ks : List Conn) → find n ks ≡ none → count (is_named n) ks ≡ 0
unfolding find count
absent_lem n [] h = refl
absent_lem n (k ∷ ks) h = elim (Bool-cases (k.name =? n)) [
  | inl e ↦ absurd (cc (rw (e, find) at h))
  | inr e ↦ rw e (absent_lem n ks (rw (e, find) at h))
]
