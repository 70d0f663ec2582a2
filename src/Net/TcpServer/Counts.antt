-- ===== src/Net/TcpServer/Counts.antt =====
-- The connections in the map and in the posts of a server, counted by a property of theirs.
use tzzero_http.Prelude.{
  ℕ, suc, ◌+◌, ◌≡◌, inl, inr, refl, sym, ap, arith, subst, Bool, if◌then◌else◌, none, some,
  Bool-cases, List, [], ◌∷◌, ◌++◌, Bytes, ◌=?◌, =?_sound,
}
use tzzero_http.Net.TcpServer.{
  Conn, Post, establishes, shuts, destroys, shut_all, destroy_all, erase, find,
}

-- The connections with a property.
unfoldable pub count : (Conn → Bool) → List Conn → ℕ
count q [] = 0
count q (c ∷ cs) = if q c then suc (count q cs) else count q cs

unfoldable pub established : (Conn → Bool) → List Post → ℕ
established q [] = 0
established q (establishes c ∷ ps) = if q c then suc (established q ps) else established q ps
established q (shuts c ∷ ps) = established q ps
established q (destroys c ∷ ps) = established q ps

unfoldable pub destroyed : (Conn → Bool) → List Post → ℕ
destroyed q [] = 0
destroyed q (establishes c ∷ ps) = destroyed q ps
destroyed q (shuts c ∷ ps) = destroyed q ps
destroyed q (destroys c ∷ ps) = if q c then suc (destroyed q ps) else destroyed q ps

abbrev pub is_named : Bytes → Conn → Bool
is_named n c = c.name =? n

pub established-append :
    (q : Conn → Bool) (ps rs : List Post)
    → established q (ps ++ rs) ≡ established q ps + established q rs
unfolding established
established-append q [] rs = omega arith
established-append q (establishes c ∷ ps) rs = ground (arith, established-append q ps rs)
established-append q (shuts c ∷ ps) rs = established-append q ps rs
established-append q (destroys c ∷ ps) rs = established-append q ps rs

pub destroyed-append :
    (q : Conn → Bool) (ps rs : List Post) → destroyed q (ps ++ rs) ≡ destroyed q ps + destroyed q rs
unfolding destroyed
destroyed-append q [] rs = omega arith
destroyed-append q (establishes c ∷ ps) rs = destroyed-append q ps rs
destroyed-append q (shuts c ∷ ps) rs = destroyed-append q ps rs
destroyed-append q (destroys c ∷ ps) rs = ground (arith, destroyed-append q ps rs)

pub shut_all_lem :
    (q : Conn → Bool) (cs : List Conn)
    → (established q (shut_all cs) ≡ 0) × (destroyed q (shut_all cs) ≡ 0)
unfolding shut_all established destroyed
shut_all_lem q [] = (refl, refl)
shut_all_lem q (c ∷ cs) = shut_all_lem q cs

pub destroy_all_lem :
    (q : Conn → Bool) (cs : List Conn)
    → (established q (destroy_all cs) ≡ 0) × (destroyed q (destroy_all cs) ≡ count q cs)
unfolding destroy_all established destroyed count
destroy_all_lem q [] = (refl, refl)
destroy_all_lem q (c ∷ cs) = ground (arith, destroy_all_lem q cs)

pub some_injective : {A : Type 0} {a b : A} → some a ≡ some b → a ≡ b
some_injective {a = a} p = ap (λ o. elim o [ none ↦ a | some x ↦ x ]) p

pub find-erase :
    (q : Conn → Bool) (n : Bytes) (cs : List Conn) (c : Conn)
    → find n cs ≡ some c
    → count q (erase n cs) + count q (c ∷ []) ≡ count q cs
unfolding find erase count
find-erase q n [] c h = absurd cc
find-erase q n (d ∷ cs) c h = elim (Bool-cases (d.name =? n)) [
  | inl e ↦ let same = some_injective (rw e at h) in rw (e, sym same) (ground arith)
  | inr e ↦ rw e (ground (arith, find-erase q n cs c (rw e at h)))
]

pub find-name : (n : Bytes) (cs : List Conn) (c : Conn) → find n cs ≡ some c → c.name ≡ n
unfolding find
find-name n [] c h = absurd cc
find-name n (d ∷ cs) c h = elim (Bool-cases (d.name =? n)) [
  | inl e ↦ subst (λ x. x.name ≡ n) (some_injective (rw e at h)) (=?_sound d.name n e)
  | inr e ↦ find-name n cs c (rw e at h)
]

pub erase_absent : (n : Bytes) (cs : List Conn) → count (is_named n) cs ≡ 0 → erase n cs ≡ cs
unfolding count erase
erase_absent n [] h = refl
erase_absent n (c ∷ cs) h = ground (arith, erase_absent n cs)
