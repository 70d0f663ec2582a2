-- ===== src/Core/EpollPoller/Delivery.antt =====
-- The events that reach a callback.
use tzzero_http.Prelude.{
  ℕ, suc, ◌+◌, ◌≤◌, ◌<◌, ◌≡◌, ◌≢◌, refl, sym, ap, arith, Bool, true, false, ◌==◌, if◌then◌else◌,
  Option, none, some, List, [], ◌∷◌, length, length-append,
}
use tzzero_http.Core.EpollPoller.{
  has_bit, events_to_epoll, epoll_to_events, PollEvent, EpollPoller, find, erase, assign, add_fd,
  modify_fd, remove_fd, collect, prepend, poll,
}

round_trip :
    (read write edge : Bool)
    → epoll_to_events
        ((if read then 3 else 0) + (if write then 4 else 0) + (if edge then 2147483648 else 0))
      ≡ (if read then 1 else 0) + (if write then 4 else 0)
unfolding epoll_to_events has_bit
round_trip false false false = refl
round_trip false false true = refl
round_trip false true false = refl
round_trip false true true = refl
round_trip true false false = refl
round_trip true false true = refl
round_trip true true false = refl
round_trip true true true = refl

-- A socket that is watched for some events, and becomes ready for all of these, is reported ready
-- for reading exactly if it was watched for reading, and likewise for writing; an edge trigger adds
-- nothing.
pub epoll_to_events-events_to_epoll :
    (events : ℕ)
    → epoll_to_events (events_to_epoll events)
      ≡ (if has_bit 0 events then 1 else 0) + (if has_bit 2 events then 4 else 0)
unfolding events_to_epoll
epoll_to_events-events_to_epoll events =
    round_trip (has_bit 0 events) (has_bit 2 events) (has_bit 31 events)

find-erase : (fd : ℕ) (cs : List (ℕ × ℕ)) → find fd (erase fd cs) ≡ none
unfolding find erase
find-erase fd [] = refl
find-erase fd ((g, callback) ∷ cs) = ground (arith, find-erase fd cs)

find-erase_other : (fd g : ℕ) (cs : List (ℕ × ℕ)) → fd ≢ g → find g (erase fd cs) ≡ find g cs
unfolding find erase
find-erase_other fd g [] d = refl
find-erase_other fd g ((h, callback) ∷ cs) d = ground (arith, find-erase_other fd g cs d)

find-assign :
    (fd callback g : ℕ) (cs : List (ℕ × ℕ))
    → find g (assign fd callback cs) ≡ (if g == fd then some callback else find g cs)
unfolding find assign
find-assign fd callback g cs = ground (arith, find-erase_other fd g cs)

find-remove :
    (fd g : ℕ) (cs : List (ℕ × ℕ)) → find g (erase fd cs) ≡ (if g == fd then none else find g cs)
find-remove fd g cs =
    ground (arith, find-erase fd cs, find-erase_other fd g cs, ap (λ h. find h (erase fd cs)))

-- What is asked of a poller, each with the answer of `epoll_ctl`.
pub data Request : Type 0 where
  adds : Bool → ℕ → ℕ → ℕ → Request
  modifies : Bool → ℕ → ℕ → ℕ → Request
  removes : Bool → ℕ → Request

unfoldable pub serve : Request → EpollPoller → Option EpollPoller
unfolding add_fd modify_fd remove_fd
serve (adds ok fd events callback) p = add_fd ok fd events callback p
serve (modifies ok fd events callback) p = modify_fd ok fd events callback p
serve (removes ok fd) p = remove_fd ok fd p

unfoldable pub run : List Request → EpollPoller → Option EpollPoller
unfolding serve
run [] p = some p
run (r ∷ rs) p = elim (serve r p) [ none ↦ none | some p' ↦ run rs p' ]

-- The callback that a descriptor has, as a function: the one of the last request for it.
unfoldable pub last_callback : List Request → (ℕ → Option ℕ) → ℕ → Option ℕ
last_callback [] m g = m g
last_callback (adds ok fd events callback ∷ rs) m g =
    last_callback rs (λ h. if h == fd then some callback else m h) g
last_callback (modifies ok fd events callback ∷ rs) m g =
    last_callback rs (λ h. if h == fd then some callback else m h) g
last_callback (removes ok fd ∷ rs) m g = last_callback rs (λ h. if h == fd then none else m h) g

abbrev pub callback_of : EpollPoller → ℕ → Option ℕ
callback_of p g = find g p.fd_callbacks

some_injective : {a b : EpollPoller} → some a ≡ some b → a ≡ b
some_injective h = cc

assigned :
    (fd callback : ℕ) (p : EpollPoller)
    → (λ h. if h == fd then some callback else callback_of p h)
      ≡ callback_of (record p { fd_callbacks = assign fd callback p.fd_callbacks })
assigned fd callback p = λ i h. sym (find-assign fd callback h p.fd_callbacks) i

erased :
    (fd : ℕ) (p : EpollPoller)
    → (λ h. if h == fd then none else callback_of p h)
      ≡ callback_of (record p { fd_callbacks = erase fd p.fd_callbacks })
erased fd p = λ i h. sym (find-remove fd h p.fd_callbacks) i

-- The map has, for each descriptor, the callback of the last request for it. The condition is that
-- none of the requests throws.
pub run-last_callback :
    (rs : List Request) (p p' : EpollPoller) (g : ℕ)
    → run rs p ≡ some p'
    → callback_of p' g ≡ last_callback rs (callback_of p) g
unfolding run last_callback
run-last_callback [] p p' g h = ap (λ q. callback_of q g) (sym (some_injective h))
run-last_callback (adds true fd events callback ∷ rs) p p' g h =
    rw (assigned fd callback p) (run-last_callback rs _ p' g h)
run-last_callback (adds false fd events callback ∷ rs) p p' g h = absurd cc
run-last_callback (modifies true fd events callback ∷ rs) p p' g h =
    rw (assigned fd callback p) (run-last_callback rs _ p' g h)
run-last_callback (modifies false fd events callback ∷ rs) p p' g h = absurd cc
run-last_callback (removes true fd ∷ rs) p p' g h = rw (erased fd p) (run-last_callback rs _ p' g h)
run-last_callback (removes false fd ∷ rs) p p' g h = absurd cc

-- Each descriptor that is ready has a callback.
abbrev pub AllKnown : List (ℕ × ℕ) → List (ℕ × ℕ) → Type 0
AllKnown cs [] = Unit {0}
AllKnown cs ((fd, revents) ∷ rs) = ((callback : ℕ) × (find fd cs ≡ some callback)) × AllKnown cs rs

length-collect :
    (cs ready : List (ℕ × ℕ)) → AllKnown cs ready → length (collect cs ready) ≡ length ready
unfolding collect prepend
length-collect cs [] v = refl
length-collect cs ((fd, revents) ∷ rs) ((callback, e), v) =
    rw (collect, e) (ap suc (length-collect cs rs v))

-- No event is lost: each ready descriptor gives one active event, behind those that were there, and
-- the next `epoll_wait` has room for more than came now. The conditions are that each ready
-- descriptor has a callback and that no more came than there was room for.
pub poll_lem :
    (ready : List (ℕ × ℕ)) (active : List PollEvent) (p : EpollPoller)
    → AllKnown p.fd_callbacks ready
    → 0 < p.capacity
    → length ready ≤ p.capacity
    → (length (poll ready active p).0 ≡ length active + length ready)
      × (length ready < (poll ready active p).1.capacity)
unfolding poll
poll_lem ready active p v z h = (
  omega (
    arith,
    length-append active (collect p.fd_callbacks ready),
    length-collect p.fd_callbacks ready v,
  ),
  ground arith,
)
