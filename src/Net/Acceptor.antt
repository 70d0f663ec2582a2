-- ===== src/Net/Acceptor.antt =====
-- include/tzzero/net/acceptor.h and src/net/acceptor.cpp: the listening socket of a server. What
-- the kernel answers is an argument: `accept4 i` is the answer to the call with that index in one
-- `handle_read`, and `opened` is the descriptor of /dev/null, if there is one. `none` is an
-- exception.
pub mod Accepting
mod Tests
use tzzero_http.Prelude.{
  ℕ, zero, suc, ◌+◌, Bool, true, false, not, ◌&&◌, ◌||◌, ◌==◌, if◌then◌else◌, Option, none, some,
  List, [], ◌∷◌, ◌++◌, Bytes, ◌=?◌, codes,
}

-- A descriptor with the peer's address, or errno.
pub data Answer : Type 0 where
  accepted : ℕ → Bytes → Answer
  failed : ℕ → Answer

-- `watched` tells whether the poller watches the socket, `handed` lists what the callback was given
-- and `closed` the accepted descriptors that were closed.
pub record Acceptor : Type 0 where
  pub listening : Bool
  pub watched : Bool
  pub idle : Option ℕ
  pub has_callback : Bool
  pub handed : List (ℕ × Bytes)
  pub closed : List ℕ

unfoldable pub make : Option ℕ → Acceptor
make idle = record {
  listening = false;
  watched = false;
  idle = idle;
  has_callback = false;
  handed = [];
  closed = [];
}

-- A descriptor, or an exception where there is none, and the descriptors that were closed.
pub record Opened : Type 0 where
  pub descriptor : Option ℕ
  pub shut : List ℕ

-- `reuse_addr` tells whether SO_REUSEADDR can be set; where SO_REUSEPORT cannot, there is a warning.
unfoldable pub create_nonblocking_socket : Option ℕ → Bool → Opened
create_nonblocking_socket none reuse_addr = record { descriptor = none; shut = [] }
create_nonblocking_socket (some fd) reuse_addr =
    if reuse_addr
    then record { descriptor = some fd; shut = [] }
    else record { descriptor = none; shut = fd ∷ [] }

abbrev inaddr_any : ℕ
inaddr_any = 0

-- `inet_aton` may fail.
unfoldable pub address_of : (Bytes → Option ℕ) → Bytes → Option ℕ
address_of inet_aton listen_addr =
    if listen_addr =? codes "0.0.0.0" || listen_addr =? []
    then some inaddr_any
    else inet_aton listen_addr

-- Whether the function returns: `binds` and `listens` are the answers of `::bind` and `::listen`.
unfoldable pub bind_and_listen :
    (Bytes → Option ℕ) → (ℕ → ℕ → Bool) → (ℕ → ℕ → Bool) → Bytes → ℕ → Bool
unfolding address_of
bind_and_listen inet_aton binds listens listen_addr port = elim (address_of inet_aton listen_addr) [
  | none ↦ false
  | some address ↦ binds address port && listens address port
]

-- The descriptors that the destructor closes, of the socket and of /dev/null.
unfoldable pub destruct : ℕ → Acceptor → List ℕ
destruct accept_fd a = elim a.idle [ none ↦ accept_fd ∷ [] | some fd ↦ accept_fd ∷ fd ∷ [] ]

unfoldable pub set_new_connection_callback : Acceptor → Acceptor
set_new_connection_callback a = record a { has_callback = true }

-- `bound` tells whether `bind_and_listen` returns.
unfoldable pub listen : Bool → Acceptor → Option Acceptor
listen bound a =
    if a.listening
    then some a
    else (if bound && not a.watched
        then some (record a { listening = true; watched = true })
        else none)

unfoldable pub disable_listening : Acceptor → Option Acceptor
disable_listening a =
    if not a.listening
    then some a
    else (if a.watched then some (record a { listening = false; watched = false }) else none)

-- `kMaxAcceptPerLoop`
abbrev pub max_accept : ℕ
max_accept = 10000

abbrev pub eagain : ℕ
eagain = 11

abbrev pub enfile : ℕ
enfile = 23

abbrev pub emfile : ℕ
emfile = 24

-- A new connection: the callback gets the descriptor, or it is closed.
unfoldable pub take_connection : ℕ → Bytes → Acceptor → Acceptor
take_connection fd peer a =
    if a.has_callback
    then record a { handed = a.handed ++ (fd, peer) ∷ [] }
    else record a { closed = a.closed ++ fd ∷ [] }

-- Protection from too many opened files: `again` is what the second call of `accept` gives while the
-- idle descriptor is closed.
unfoldable pub reject_one : Option ℕ → Option ℕ → Acceptor → Acceptor
reject_one again opened a = record a {
  idle = opened;
  closed = elim again [ none ↦ a.closed | some fd ↦ a.closed ++ fd ∷ [] ];
}

-- EWOULDBLOCK is EAGAIN.
unfoldable pub handle_failure : ℕ → Option ℕ → Option ℕ → Acceptor → Acceptor
unfolding reject_one
handle_failure errno again opened a =
    if errno == eagain
    then a
    else (if errno == emfile || errno == enfile then reject_one again opened a else a)

-- The `for` loop, of which `n` rounds are left, and `i` were run.
unfoldable pub accept_loop : (ℕ → Answer) → Option ℕ → Option ℕ → ℕ → ℕ → Acceptor → Acceptor
unfolding take_connection handle_failure
accept_loop accept4 again opened zero i a = a
accept_loop accept4 again opened (suc n) i a = elim (accept4 i) [
  | accepted fd peer ↦ accept_loop accept4 again opened n (suc i) (take_connection fd peer a)
  | failed errno ↦ handle_failure errno again opened a
]

unfoldable pub handle_read : (ℕ → Answer) → Option ℕ → Option ℕ → Acceptor → Acceptor
unfolding accept_loop
handle_read accept4 again opened a = accept_loop accept4 again opened max_accept 0 a
