-- ===== src/Net/EventLoopThread/Tests.antt =====
-- A thread that is started, enters its loop, and is destroyed.
use tzzero_http.Prelude.{◌≡◌, ◌⊎◌, refl, true, false, some, List, [], ◌∷◌}
use tzzero_http.Net.EventLoopThread.{
  published, looping, left, ended, destroyed, terminated, holding, EventLoopThread, make, Event,
  starts, wakes, returns, destructs, joins, runs, step, run,
}
use tzzero_http.Net.EventLoopThread.Handshake.{IsHandshake, make-IsHandshake, run-IsHandshake}
use tzzero_http.Net.EventLoopThread.Joining.{is_blocked, destruct-outcome}

abbrev events : List Event
events = starts ∷ runs false ∷ runs false ∷ wakes ∷ runs false ∷ returns ∷ []

abbrev at_work : EventLoopThread
at_work = record {
  stage = looping;
  owner = holding true;
  loop_set = true;
  quit = false;
  has_callback = true;
  calls = 1;
}

events-run : run events (make true) ≡ some at_work
unfolding run make
events-run = refl

run-IsHandshake_example : IsHandshake at_work
run-IsHandshake_example =
    run-IsHandshake events (make true) at_work (make-IsHandshake true) events-run

at_work-IsHandshake : IsHandshake at_work
at_work-IsHandshake = run-IsHandshake events (make true) at_work (make-IsHandshake true) events-run

-- The owner wakes before the thread enters its loop.
abbrev at_door : EventLoopThread
at_door = record at_work { stage = published }

abbrev early_events : List Event
early_events = starts ∷ runs false ∷ runs false ∷ wakes ∷ returns ∷ []

early_events-run : run early_events (make true) ≡ some at_door
unfolding run make
early_events-run = refl

at_door-IsHandshake : IsHandshake at_door
at_door-IsHandshake =
    run-IsHandshake early_events (make true) at_door (make-IsHandshake true) early_events-run

destruct-outcome_example :
    ((at_door.stage ≡ published)
      × ((t' : EventLoopThread) × (run (destructs ∷ runs false ∷ []) at_door ≡ some t')
          × (is_blocked t' ≡ true)))
    ⊎ (((at_door.stage ≡ looping)
          × ((t' : EventLoopThread) × (run
                  (destructs ∷ runs false ∷ runs false ∷ joins ∷ [])
                  at_door
                ≡ some t')
              × (t'.owner ≡ destroyed)))
        ⊎ (((at_door.stage ≡ left)
              × ((t' : EventLoopThread) × (run (destructs ∷ runs false ∷ joins ∷ []) at_door
                    ≡ some t')
                  × (t'.owner ≡ destroyed)))
            ⊎ ((at_door.stage ≡ ended)
                × (step destructs at_door ≡ some (record at_door { owner = terminated })))))
destruct-outcome_example = destruct-outcome at_door true at_door-IsHandshake refl

ends_well :
    run (destructs ∷ runs false ∷ runs false ∷ joins ∷ []) at_work
    ≡ some (record at_work { stage = ended; owner = destroyed; loop_set = false; quit = true })
unfolding run
ends_well = refl
