-- ===== src/Net/Acceptor/Accepting.antt =====
-- What becomes of the connections that `handle_read` accepts.
use tzzero_http.Prelude.{
  ℕ, zero, suc, ◌≤◌, ◌≡◌, sym, ◌∙◌, arith, Bool, false, ◌||◌, ◌==◌, if◌then◌else◌, Option, none,
  some, List, [], ◌∷◌, ◌++◌, append_assoc, append-nil, Bytes, length,
}
use tzzero_http.Net.Acceptor.{
  Acceptor, Answer, accepted, failed, emfile, enfile, max_accept, take_connection, handle_failure,
  accept_loop, handle_read,
}

-- The connections that come before the first failure, `n` at most.
unfoldable pub arrivals : (ℕ → Answer) → ℕ → ℕ → List (ℕ × Bytes)
arrivals accept4 zero i = []
arrivals accept4 (suc n) i = elim (accept4 i) [
  | accepted fd peer ↦ (fd, peer) ∷ arrivals accept4 n (suc i)
  | failed errno ↦ []
]

-- The failure that ends the loop, unless its rounds are used up first.
unfoldable pub failure : (ℕ → Answer) → ℕ → ℕ → Option ℕ
failure accept4 zero i = none
failure accept4 (suc n) i = elim (accept4 i) [
  | accepted fd peer ↦ failure accept4 n (suc i)
  | failed errno ↦ some errno
]

abbrev pub descriptors : List (ℕ × Bytes) → List ℕ
descriptors [] = []
descriptors ((fd, peer) ∷ cs) = fd ∷ descriptors cs

-- A shortage of descriptors.
abbrev pub is_shortage : Option ℕ → Bool
is_shortage none = false
is_shortage (some errno) = errno == emfile || errno == enfile

abbrev pub as_list : Option ℕ → List ℕ
as_list none = []
as_list (some fd) = fd ∷ []

-- What `handle_read` does with these connections and this failure.
unfoldable pub outcome : List (ℕ × Bytes) → Option ℕ → Option ℕ → Option ℕ → Acceptor → Acceptor
outcome cs e again opened a = record a {
  idle = if is_shortage e then opened else a.idle;
  handed = if a.has_callback then a.handed ++ cs else a.handed;
  closed =
      (if a.has_callback then a.closed else a.closed ++ descriptors cs)
      ++ (if is_shortage e then as_list again else []);
}

handle_failure-outcome :
    (errno : ℕ) (again opened : Option ℕ) (a : Acceptor)
    → handle_failure errno again opened a ≡ outcome [] (some errno) again opened a
unfolding handle_failure outcome
handle_failure-outcome errno none opened a =
    ground (arith, append-nil a.closed, append-nil a.handed)
handle_failure-outcome errno (some fd) opened a =
    ground (arith, append-nil a.closed, append-nil a.handed)

take_connection-outcome :
    (fd : ℕ) (peer : Bytes) (cs : List (ℕ × Bytes)) (e again opened : Option ℕ) (a : Acceptor)
    → outcome cs e again opened (take_connection fd peer a)
      ≡ outcome ((fd, peer) ∷ cs) e again opened a
unfolding take_connection outcome
take_connection-outcome fd peer cs e again opened a = ground (
  arith,
  append_assoc a.closed (fd ∷ []) (descriptors cs),
  append_assoc a.handed ((fd, peer) ∷ []) cs,
)

none-outcome : (again opened : Option ℕ) (a : Acceptor) → outcome [] none again opened a ≡ a
unfolding outcome
none-outcome again opened a = ground (arith, append-nil a.closed, append-nil a.handed)

accept_loop-outcome :
    (accept4 : ℕ → Answer) (again opened : Option ℕ) (n i : ℕ) (a : Acceptor)
    → accept_loop accept4 again opened n i a
      ≡ outcome (arrivals accept4 n i) (failure accept4 n i) again opened a
unfolding accept_loop arrivals failure
accept_loop-outcome accept4 again opened zero i a = sym (none-outcome again opened a)
accept_loop-outcome accept4 again opened (suc n) i a =
    elim (accept4 i)
      as (λ answer.
        elim answer [
          | accepted fd peer ↦
              accept_loop accept4 again opened n (suc i) (take_connection fd peer a)
          | failed errno ↦ handle_failure errno again opened a
        ]
        ≡ outcome
            (elim answer [
              | accepted fd peer ↦ (fd, peer) ∷ arrivals accept4 n (suc i)
              | failed errno ↦ []
            ])
            (elim answer [
              | accepted fd peer ↦ failure accept4 n (suc i)
              | failed errno ↦ some errno
            ])
            again opened a) [
              | accepted fd peer ↦
                  accept_loop-outcome accept4 again opened n (suc i) (take_connection fd peer a)
                  ∙ take_connection-outcome fd peer (arrivals accept4 n (suc i))
                      (failure accept4 n (suc i)) again opened a
              | failed errno ↦ handle_failure-outcome errno again opened a
            ]

length-arrivals : (accept4 : ℕ → Answer) (n i : ℕ) → length (arrivals accept4 n i) ≤ n
unfolding arrivals
length-arrivals accept4 zero i = omega arith
length-arrivals accept4 (suc n) i =
    elim (accept4 i)
      as (λ answer.
        length (elim answer [
          | accepted fd peer ↦ (fd, peer) ∷ arrivals accept4 n (suc i)
          | failed errno ↦ []
        ])
        ≤ suc n) [
          | accepted fd peer ↦ omega (arith, length-arrivals accept4 n (suc i))
          | failed errno ↦ omega arith
        ]

-- The connections that arrive before the first failure, 10000 at most, are handed over in order if
-- there is a callback, and closed if there is none. If descriptors run short, the connection that
-- the second `accept` gives is closed too and the idle descriptor is opened again; any other failure
-- changes nothing.
pub handle_read-outcome :
    (accept4 : ℕ → Answer) (again opened : Option ℕ) (a : Acceptor)
    → (handle_read accept4 again opened a
        ≡ outcome (arrivals accept4 max_accept 0) (failure accept4 max_accept 0) again opened a)
      × (length (arrivals accept4 max_accept 0) ≤ max_accept)
unfolding handle_read
handle_read-outcome accept4 again opened a =
    (accept_loop-outcome accept4 again opened max_accept 0 a, length-arrivals accept4 max_accept 0)
