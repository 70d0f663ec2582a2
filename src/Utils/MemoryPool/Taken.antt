-- ===== src/Utils/MemoryPool/Taken.antt =====
-- Taking an object from the pool.
use tzzero_http.Prelude.{
  ℕ, zero, suc, ◌+◌, ◌<◌, ◌≡◌, refl, ◌∙◌, arith, inl, inr, Bool, false, ◌||◌, List, [], ◌∷◌, ◌++◌,
  length, ◌==◌, if◌then◌else◌, Option-cases, All-append, add_size, add_size_exact, size_mod,
  length-replicate, Bool-cases,
}
use tzzero_http.Utils.MemoryPool.{
  Block, Pool, Address, at, get_used, take_in_blocks, allocate, allocate_new, new_block, mark, make,
}
use tzzero_http.Utils.MemoryPool.Slots.{
  IsCounted, count_used, mark-IsCounted, new_block-IsCounted, count_used-replicate,
  get_used-replicate,
}
use tzzero_http.Utils.MemoryPool.Live.{
  is_live, same, total_used, AllCounted, IsValid, Takes, take_in_blocks_lem, mark-get_used,
}

-- A new pool is valid and has no object in use.
pub make-IsValid :
    (size : ℕ)
    → 0 < size
    → size < size_mod
    → IsValid (make size) × ((k i : ℕ) → is_live (make size).blocks k i ≡ false)
unfolding make new_block is_live total_used
make-IsValid size pos small = (
  ground (arith, new_block-IsCounted size, count_used-replicate size),
  λ k i. elim k as (λ k. is_live (make size).blocks k i ≡ false) [
    | zero ↦ get_used-replicate size i
    | suc k' ↦ refl
  ],
)

total_used-append :
    (bs : List Block) (b : Block) → total_used (bs ++ b ∷ []) ≡ total_used bs + count_used b.used
unfolding total_used
total_used-append [] b = omega arith
total_used-append (c ∷ bs) b = omega (arith, total_used-append bs b)

is_live-append :
    (bs : List Block) (b : Block) (j l : ℕ)
    → is_live (bs ++ b ∷ []) j l ≡ (if length bs == j then get_used b.used l else is_live bs j l)
unfolding is_live
is_live-append [] b zero l = refl
is_live-append [] b (suc j) l = ground arith
is_live-append (c ∷ bs) b zero l = ground arith
is_live-append (c ∷ bs) b (suc j) l = ground (arith, is_live-append bs b j l)

is_live-beyond : (bs : List Block) (l : ℕ) → is_live bs (length bs) l ≡ false
unfolding is_live
is_live-beyond [] l = refl
is_live-beyond (b ∷ bs) l = is_live-beyond bs l

grow_live :
    (size j l : ℕ) (bs : List Block)
    → 0 < size
    → is_live (bs ++ mark (new_block size) 0 ∷ []) j l ≡ (same (length bs) 0 j l || is_live bs j l)
grow_live size j l bs pos =
    let slot =
      mark-get_used (new_block size) 0 l
        (unfold new_block in omega (arith, length-replicate {A = Bool} size false)) in
    let fresh : get_used (new_block size).used l ≡ false =
      (unfold new_block in get_used-replicate size l) in
    elim (Bool-cases (length bs == j)) [
      | inl e ↦ ground (
        arith,
        e,
        slot,
        fresh,
        is_live-append bs (mark (new_block size) 0) j l,
        is_live-beyond bs l,
      )
      | inr e ↦ is_live-append bs (mark (new_block size) 0) j l ∙ ground (arith, e)
    ]

grow_lem :
    (size j l : ℕ) (bs : List Block)
    → 0 < size
    → size < size_mod
    → AllCounted size bs
    → Takes size (length bs) 0 j l bs (bs ++ mark (new_block size) 0 ∷ [])
unfolding new_block
grow_lem size j l bs pos small v =
    let fresh = get_used-replicate size 0 in
    let (c, more) =
      mark-IsCounted size 0 (new_block size) (new_block-IsCounted size) small pos fresh in
    record {
      counted = All-append (IsCounted size) bs (mark (new_block size) 0 ∷ []) v (c, tt);
      one_more =
          omega (
            arith,
            total_used-append bs (mark (new_block size) 0),
            more,
            count_used-replicate size,
          );
      was_free = is_live-beyond bs 0;
      now_live = grow_live size j l bs pos;
      in_block = pos;
    }

-- An address `a` that a valid pool `p` hands out, and the pool `p'` it leaves.
pub record Handed (p : Pool) (a : Address) (p' : Pool) : Type 0 where
  pub valid : IsValid p'
  pub block : ℕ
  pub index : ℕ
  pub address : a ≡ at block index
  pub in_block : index < p.block_size
  pub was_free : is_live p.blocks block index ≡ false
  pub now_live : (j l : ℕ) → is_live p'.blocks j l ≡ (same block index j l || is_live p.blocks j l)

handed :
    (p : Pool) (k i : ℕ) (bs : List Block)
    → IsValid p
    → suc p.allocated_count < size_mod
    → ((j l : ℕ) → Takes p.block_size k i j l p.blocks bs)
    → Handed p (at k i) (record p { blocks = bs; allocated_count = add_size p.allocated_count 1 })
handed p k i bs v room t = record {
  valid =
      (let q = t 0 0 in
        ground (arith, v, q, add_size_exact p.allocated_count 1 (omega (arith, room))));
  block = k;
  index = i;
  address = refl;
  in_block = (t 0 0).in_block;
  was_free = (t 0 0).was_free;
  now_live = λ j l. (t j l).now_live;
}

-- In a valid pool `allocate` hands out the address of an object that was not in use, in a block of
-- the pool; afterwards the objects in use are the ones before and this one, and the pool is valid
-- again. The condition is that the count of objects in use is not at the largest `size_t`.
pub allocate_lem :
    (p : Pool)
    → IsValid p
    → suc p.allocated_count < size_mod
    → Handed p (allocate p).0 (allocate p).1
unfolding allocate allocate_new
allocate_lem p v room = elim (Option-cases (take_in_blocks p.blocks)) [
  | inl e ↦
      let t = λ (j : ℕ) (l : ℕ). grow_lem p.block_size j l p.blocks v.nonempty v.small v.counted in
      rw (e, allocate) (handed p (length p.blocks) 0 _ v room t)
  | inr ((k, i, bs), e) ↦
      let t = λ (j : ℕ) (l : ℕ).
        take_in_blocks_lem p.blocks bs p.block_size k i l v.small v.counted e j in
      rw (e, allocate) (handed p k i bs v room t)
]
