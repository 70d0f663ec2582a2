-- ===== src/Net/Acceptor/Tests.antt =====
-- A listening socket at work: two connections, and then no descriptor left.
use tzzero_http.Prelude.{ℕ, ◌≤◌, ◌≡◌, refl, true, ◌==◌, if◌then◌else◌, some, [], ◌∷◌, length}
use tzzero_http.Net.Acceptor.{
  Acceptor, Answer, accepted, failed, emfile, max_accept, make, set_new_connection_callback, listen,
  handle_read,
}
use tzzero_http.Net.Acceptor.Accepting.{arrivals, failure, outcome, handle_read-outcome}

abbrev two_then_shortage : ℕ → Answer
two_then_shortage i =
    if i == 0 then accepted 7 [] else (if i == 1 then accepted 8 [] else failed emfile)

abbrev ready : Acceptor
ready = set_new_connection_callback (make (some 3))

abbrev after : Acceptor
after = handle_read two_then_shortage (some 9) (some 4) ready

after-fields :
    (after.handed ≡ (7, []) ∷ (8, []) ∷ []) × (after.closed ≡ 9 ∷ []) × (after.idle ≡ some 4)
unfolding handle_read set_new_connection_callback make
after-fields = (refl, refl, refl)

listened : listen true ready ≡ some (record ready { listening = true; watched = true })
unfolding listen set_new_connection_callback make
listened = refl

handle_read-outcome_example :
    (after
      ≡ outcome
          (arrivals two_then_shortage max_accept 0)
          (failure two_then_shortage max_accept 0)
          (some 9)
          (some 4)
          ready)
    × (length (arrivals two_then_shortage max_accept 0) ≤ max_accept)
handle_read-outcome_example = handle_read-outcome two_then_shortage (some 9) (some 4) ready
