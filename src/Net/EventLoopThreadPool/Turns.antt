-- ===== src/Net/EventLoopThreadPool/Turns.antt =====
-- The order in which the loops are dealt out.
use tzzero_http.Prelude.{
  ℕ, zero, suc, ◌+◌, ◌≡◌, ◌≢◌, refl, sym, ap, ◌∙◌, arith, Bool, true, some, List, [], ◌∷◌, ◌++◌,
  length, length-append, append_assoc,
}
use tzzero_http.Net.EventLoopThreadPool.{
  EventLoopThreadPool, make, set_thread_num, start, start_threads, nth, advance, get_next_loop,
  next_loops,
}

nth-append : (pre rest : List ℕ) (l : ℕ) → nth (pre ++ l ∷ rest) (length pre) ≡ some l
unfolding nth
nth-append [] rest l = refl
nth-append (k ∷ pre) rest l = nth-append pre rest l

-- A started pool whose index stands behind `pre`.
abbrev pub at_turn : ℕ → ℕ → List ℕ → List ℕ → EventLoopThreadPool
at_turn base_loop n pre rest = record {
  base_loop = base_loop;
  started = true;
  num_threads = n;
  next = length pre;
  loops = pre ++ rest;
}

get_next_loop_lem :
    (b n : ℕ) (pre rest : List ℕ) (l : ℕ)
    → get_next_loop (at_turn b n pre (l ∷ rest))
      ≡ some (
        l,
        record (at_turn b n pre (l ∷ rest)) {
          next = advance (length (pre ++ l ∷ rest)) (length pre);
        },
      )
unfolding get_next_loop
get_next_loop_lem b n [] rest l = refl
get_next_loop_lem b n (k ∷ pre) rest l = rw (nth-append pre rest l) refl

advance_last : (pre : List ℕ) (l : ℕ) → advance (length (pre ++ l ∷ [])) (length pre) ≡ 0
unfolding advance
advance_last pre l = ground (arith, length-append pre (l ∷ []))

advance_next :
    (pre rest : List ℕ) (l k : ℕ)
    → advance (length (pre ++ l ∷ k ∷ rest)) (length pre) ≡ suc (length pre)
unfolding advance
advance_next pre rest l k = ground (arith, length-append pre (l ∷ k ∷ rest))

next_loops-suc :
    (m l : ℕ) (ls : List ℕ) (p p1 p2 : EventLoopThreadPool)
    → get_next_loop p ≡ some (l, p1)
    → next_loops m p1 ≡ some (ls, p2)
    → next_loops (suc m) p ≡ some (l ∷ ls, p2)
unfolding next_loops
next_loops-suc m l ls p p1 p2 h k = rw (h, k, next_loops) refl

moved :
    (b n : ℕ) (pre rest : List ℕ) (l : ℕ)
    → record (at_turn b n pre (l ∷ rest)) { next = suc (length pre) }
      ≡ at_turn b n (pre ++ l ∷ []) rest
moved b n pre rest l = cc (append_assoc pre (l ∷ []) rest, length-append pre (l ∷ []), one_more)
  where
    one_more : length pre + 1 ≡ suc (length pre)
    one_more = omega arith

-- The loops from the index on, in order; then the index is at the front again.
next_loops_rest :
    (b n : ℕ) (rest pre : List ℕ) (l : ℕ)
    → next_loops (suc (length rest)) (at_turn b n pre (l ∷ rest))
      ≡ some (l ∷ rest, record (at_turn b n pre (l ∷ rest)) { next = 0 })
unfolding next_loops
next_loops_rest b n [] pre l =
    next_loops-suc 0 l [] (at_turn b n pre (l ∷ [])) _ _ (get_next_loop_lem b n pre [] l)
      (ap (λ i. some ([], record (at_turn b n pre (l ∷ [])) { next = i })) (advance_last pre l))
next_loops_rest b n (k ∷ rest) pre l =
    next_loops-suc (suc (length rest)) l (k ∷ rest) (at_turn b n pre (l ∷ k ∷ rest)) _ _
      (get_next_loop_lem b n pre (k ∷ rest) l)
      (ap
          (λ i.
            next_loops (suc (length rest)) (record (at_turn b n pre (l ∷ k ∷ rest)) { next = i }))
          (advance_next pre rest l k)
        ∙ ap (next_loops (suc (length rest))) (moved b n pre (k ∷ rest) l)
        ∙ next_loops_rest b n rest (pre ++ l ∷ []) k
        ∙ ap
            (λ ls.
              some (k ∷ rest, record (at_turn b n pre (l ∷ k ∷ rest)) { next = 0; loops = ls }))
            (append_assoc pre (l ∷ []) (k ∷ rest)))

length-start_threads : (loop_of : ℕ → ℕ) (i n : ℕ) → length (start_threads loop_of i n) ≡ n
unfolding start_threads
length-start_threads loop_of i zero = refl
length-start_threads loop_of i (suc n) = ap suc (length-start_threads loop_of (suc i) n)

-- A pool that is given `n` threads, not 0, and started by the loop's thread has `n` loops; the next
-- `n` calls of `get_next_loop` give each of them once, in order, and leave the pool as it was.
pub start_turns :
    (loop_of : ℕ → ℕ) (base n : ℕ) (has_callback : Bool)
    → n ≢ 0
    → (p : EventLoopThreadPool) × (ran : List ℕ) × (start loop_of true has_callback
          (set_thread_num n (make base))
        ≡ some (p, ran))
      × (length p.loops ≡ n)
      × (next_loops n p ≡ some (p.loops, p))
unfolding start start_threads set_thread_num make
start_turns loop_of base zero has_callback h = absurd (h refl)
start_turns loop_of base (suc n) has_callback h =
    let later = start_threads loop_of 1 n in
    (
      at_turn base (suc n) [] (loop_of 0 ∷ later),
      _,
      refl,
      ap suc (length-start_threads loop_of 1 n),
      ap (λ m. next_loops (suc m) (at_turn base (suc n) [] (loop_of 0 ∷ later)))
            (sym (length-start_threads loop_of 1 n))
          ∙ next_loops_rest base (suc n) later [] (loop_of 0),
    )
