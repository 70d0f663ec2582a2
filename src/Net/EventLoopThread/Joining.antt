-- ===== src/Net/EventLoopThread/Joining.antt =====
-- What the destructor does, by where the thread stands.
use tzzero_http.Prelude.{
  ◌≡◌, ◌⊎◌, refl, ap, ◌∙◌, arith, inl, inr, Bool, true, false, ◌&&◌, Option, none, some, List, [],
  ◌∷◌,
}
use tzzero_http.Net.EventLoopThread.{
  Stage, unmade, made, called, published, looping, left, ended, joining, destroyed, terminated,
  holding, EventLoopThread, Event, starts, wakes, returns, destructs, joins, runs, destruct, join,
  thread_func, start_loop, wake, return_loop, step, run,
}
use tzzero_http.Net.EventLoopThread.Handshake.{IsHandshake, past_publication, has_waited, gives}

abbrev is_none : Option EventLoopThread → Bool
is_none none = true
is_none (some t) = false

-- Neither the thread nor its owner can take a step, unless `poll` fails.
unfoldable pub is_blocked : EventLoopThread → Bool
is_blocked t =
    is_none (step starts t)
    && (is_none (step wakes t)
        && (is_none (step returns t)
            && (is_none (step destructs t)
                && (is_none (step joins t) && is_none (step (runs false) t)))))

-- The thread stands behind its callback and before `loop`, in the loop, behind it, or at its end.
past_cases :
    (s : Stage)
    → past_publication s ≡ true
    → (s ≡ published) ⊎ ((s ≡ looping) ⊎ ((s ≡ left) ⊎ (s ≡ ended)))
past_cases unmade e = absurd (cc)
past_cases made e = absurd (cc)
past_cases called e = absurd (cc)
past_cases published e = inl refl
past_cases looping e = inr (inl refl)
past_cases left e = inr (inr (inl refl))
past_cases ended e = inr (inr (inr refl))

run_cons :
    (e : Event) (es : List Event) (t u : EventLoopThread)
    → step e t ≡ some u
    → run (e ∷ es) t ≡ run es u
unfolding run
run_cons e es t u h = rw (h, run) refl

-- The state after `quit`, with the thread at a given place.
abbrev at_join : Stage → EventLoopThread → EventLoopThread
at_join s t = record t { quit = true; owner = joining; stage = s }

module _ (t : EventLoopThread) (b : Bool) (o : t.owner ≡ holding b) where
  destruct_set :
      (s : Stage) → t.stage ≡ s → t.loop_set ≡ true → step destructs t ≡ some (at_join s t)
  unfolding step destruct
  destruct_set s e l = ground (arith, o, e, l)

  early :
      t.stage ≡ published
      → t.loop_set ≡ true
      → (t' : EventLoopThread) × (run (destructs ∷ runs false ∷ []) t ≡ some t')
        × (is_blocked t' ≡ true)
  unfolding run step thread_func is_blocked start_loop wake return_loop join destruct
  early e l = (
    record (at_join looping t) { quit = false },
    run_cons destructs (runs false ∷ []) t (at_join published t) (destruct_set published e l),
    refl,
  )

  in_loop :
      t.stage ≡ looping
      → t.loop_set ≡ true
      → (t' : EventLoopThread) × (run (destructs ∷ runs false ∷ runs false ∷ joins ∷ []) t
          ≡ some t')
        × (t'.owner ≡ destroyed)
  unfolding run step thread_func join
  in_loop e l = (
    record (at_join ended t) { owner = destroyed; loop_set = false },
    run_cons destructs (runs false ∷ runs false ∷ joins ∷ []) t (at_join looping t)
        (destruct_set looping e l),
    refl,
  )

  behind_loop :
      t.stage ≡ left
      → t.loop_set ≡ true
      → (t' : EventLoopThread) × (run (destructs ∷ runs false ∷ joins ∷ []) t ≡ some t')
        × (t'.owner ≡ destroyed)
  unfolding run step thread_func join
  behind_loop e l = (
    record (at_join ended t) { owner = destroyed; loop_set = false },
    run_cons destructs (runs false ∷ joins ∷ []) t (at_join left t) (destruct_set left e l),
    refl,
  )

  at_end :
      t.stage ≡ ended
      → t.loop_set ≡ false
      → step destructs t ≡ some (record t { owner = terminated })
  unfolding step destruct
  at_end e l = ground (arith, o, e, l)

-- The destructor of a thread whose `start_loop` has returned, by where the thread stands. Before
-- `loop`: the request to quit is lost, and after the entry to `loop` neither the thread nor its owner
-- can take a step, unless `poll` fails. In the loop or behind it: the thread comes to its end, and the
-- destructor returns. At its end: the process is terminated, since the thread was not joined.
pub destruct-outcome :
    (t : EventLoopThread) (b : Bool)
    → IsHandshake t
    → t.owner ≡ holding b
    → ((t.stage ≡ published)
        × ((t' : EventLoopThread) × (run (destructs ∷ runs false ∷ []) t ≡ some t')
            × (is_blocked t' ≡ true)))
      ⊎ (((t.stage ≡ looping)
            × ((t' : EventLoopThread) × (run (destructs ∷ runs false ∷ runs false ∷ joins ∷ []) t
                  ≡ some t')
                × (t'.owner ≡ destroyed)))
          ⊎ (((t.stage ≡ left)
                × ((t' : EventLoopThread) × (run (destructs ∷ runs false ∷ joins ∷ []) t ≡ some t')
                    × (t'.owner ≡ destroyed)))
              ⊎ ((t.stage ≡ ended) × (step destructs t ≡ some (record t { owner = terminated })))))
destruct-outcome t b v o = elim (past_cases t.stage (v.behind (ap has_waited o))) [
  | inl e ↦ inl (e, early t b o e (v.given ∙ ap gives e))
  | inr (inl e) ↦ inr (inl (e, in_loop t b o e (v.given ∙ ap gives e)))
  | inr (inr (inl e)) ↦ inr (inr (inl (e, behind_loop t b o e (v.given ∙ ap gives e))))
  | inr (inr (inr e)) ↦ inr (inr (inr (e, at_end t b o e (v.given ∙ ap gives e))))
]
