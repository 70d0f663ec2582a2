-- ===== src/Core/EpollPoller.antt =====
-- include/tzzero/core/poller.h, include/tzzero/core/epoll_poller.h and src/core/epoll_poller.cpp: the
-- poller. A callback is a number. `ok` tells whether `epoll_ctl` succeeds, and what `epoll_wait` gives
-- is a list; `none` is an exception. The flags of two words that share no bit are joined by a sum.
pub mod Delivery
mod Tests
use tzzero_http.Prelude.{
  ℕ, zero, suc, ◌+◌, ◌*◌, ◌/◌, ◌%◌, ◌^◌, Bool, true, false, ◌&&◌, ◌||◌, ◌==◌, if◌then◌else◌, Option,
  none, some, List, [], ◌∷◌, ◌++◌, length,
}

-- Whether a word has the bit with this number.
unfoldable pub has_bit : ℕ → ℕ → Bool
has_bit k w = w / 2 ^ k % 2 == 1

abbrev pub event_read : ℕ
event_read = 1

abbrev pub event_write : ℕ
event_write = 4

abbrev pub event_error : ℕ
event_error = 8

-- EVENT_READ, EVENT_WRITE and EVENT_EDGE_TRIGGERED are the bits 0, 2 and 31; EPOLLIN and EPOLLPRI
-- make 3, EPOLLOUT is 4, and EPOLLET is the bit 31.
unfoldable pub events_to_epoll : ℕ → ℕ
unfolding has_bit
events_to_epoll events =
    (if has_bit 0 events then 3 else 0)
    + (if has_bit 2 events then 4 else 0)
    + (if has_bit 31 events then 2147483648 else 0)

-- EPOLLIN, EPOLLPRI and EPOLLRDHUP are the bits 0, 1 and 13, EPOLLOUT the bit 2, EPOLLERR and
-- EPOLLHUP the bits 3 and 4.
unfoldable pub epoll_to_events : ℕ → ℕ
unfolding has_bit
epoll_to_events epoll_events =
    (if has_bit 0 epoll_events || has_bit 1 epoll_events || has_bit 13 epoll_events
      then event_read
      else 0)
    + (if has_bit 2 epoll_events then event_write else 0)
    + (if has_bit 3 epoll_events || has_bit 4 epoll_events then event_error else 0)

-- The descriptor, the events and the callback.
pub record PollEvent : Type 0 where
  pub fd : ℕ
  pub events : ℕ
  pub callback : ℕ

-- A call of `epoll_ctl`, with the descriptor and its events.
pub data Control : Type 0 where
  add modify : ℕ → ℕ → Control
  delete : ℕ → Control

-- `controls` lists the calls of `epoll_ctl`, `capacity` is the size of `events_`, and `fd_callbacks` the map.
pub record EpollPoller : Type 0 where
  pub capacity : ℕ
  pub fd_callbacks : List (ℕ × ℕ)
  pub controls : List Control

unfoldable pub make : EpollPoller
make = record { capacity = 16; fd_callbacks = []; controls = [] }

unfoldable pub find : ℕ → List (ℕ × ℕ) → Option ℕ
find fd [] = none
find fd ((g, callback) ∷ cs) = if g == fd then some callback else find fd cs

unfoldable pub erase : ℕ → List (ℕ × ℕ) → List (ℕ × ℕ)
erase fd [] = []
erase fd ((g, callback) ∷ cs) =
    let rest = erase fd cs in if g == fd then rest else (g, callback) ∷ rest

-- `fd_callbacks_[fd] = callback`
unfoldable pub assign : ℕ → ℕ → List (ℕ × ℕ) → List (ℕ × ℕ)
unfolding erase
assign fd callback cs = (fd, callback) ∷ erase fd cs

unfoldable pub add_fd : Bool → ℕ → ℕ → ℕ → EpollPoller → Option EpollPoller
unfolding assign events_to_epoll
add_fd ok fd events callback p =
    if ok
    then some (record p {
      fd_callbacks = assign fd callback p.fd_callbacks;
      controls = p.controls ++ add fd (events_to_epoll events) ∷ [];
    })
    else none

unfoldable pub modify_fd : Bool → ℕ → ℕ → ℕ → EpollPoller → Option EpollPoller
unfolding assign events_to_epoll
modify_fd ok fd events callback p =
    if ok
    then some (record p {
      fd_callbacks = assign fd callback p.fd_callbacks;
      controls = p.controls ++ modify fd (events_to_epoll events) ∷ [];
    })
    else none

unfoldable pub remove_fd : Bool → ℕ → EpollPoller → Option EpollPoller
unfolding erase
remove_fd ok fd p =
    if ok
    then some (record p {
      fd_callbacks = erase fd p.fd_callbacks;
      controls = p.controls ++ delete fd ∷ [];
    })
    else none

unfoldable pub prepend : Option ℕ → ℕ → ℕ → List PollEvent → List PollEvent
unfolding epoll_to_events
prepend none fd revents es = es
prepend (some callback) fd revents es =
    record { fd = fd; events = epoll_to_events revents; callback = callback } ∷ es

-- The loop over what `epoll_wait` gave.
unfoldable pub collect : List (ℕ × ℕ) → List (ℕ × ℕ) → List PollEvent
unfolding find prepend
collect cs [] = []
collect cs ((fd, revents) ∷ rs) = prepend (find fd cs) fd revents (collect cs rs)

-- The events behind those that were active before, and the poller.
unfoldable pub poll : List (ℕ × ℕ) → List PollEvent → EpollPoller → List PollEvent × EpollPoller
unfolding collect
poll ready active p = (
  active ++ collect p.fd_callbacks ready,
  if length ready == p.capacity then record p { capacity = p.capacity * 2 } else p,
)
