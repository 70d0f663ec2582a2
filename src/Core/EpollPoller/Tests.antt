-- ===== src/Core/EpollPoller/Tests.antt =====
-- A poller at work.
use tzzero_http.Prelude.{ℕ, ◌≡◌, refl, true, some, List, [], ◌∷◌}
use tzzero_http.Core.EpollPoller.{add, modify, delete, EpollPoller, make, find}
use tzzero_http.Core.EpollPoller.Delivery.{Request, adds, modifies, removes, run, AllKnown}

abbrev requests : List Request
requests = adds true 5 1 50 ∷ adds true 6 1 60 ∷ modifies true 5 5 51 ∷ removes true 6 ∷ []

abbrev after : EpollPoller
after = record {
  capacity = 16;
  fd_callbacks = (5, 51) ∷ [];
  controls = add 5 3 ∷ add 6 3 ∷ modify 5 7 ∷ delete 6 ∷ [];
}

requests-run : run requests make ≡ some after
unfolding run make
requests-run = refl

abbrev ready : List (ℕ × ℕ)
ready = (5, 5) ∷ []

ready-AllKnown : AllKnown after.fd_callbacks ready
unfolding find
ready-AllKnown = ((51, refl), tt)
