-- ===== src/Utils/MemoryPool/Freed.antt =====
-- Giving an object back to the pool.
use tzzero_http.Prelude.{
  ℕ, zero, suc, ◌<◌, ◌≡◌, refl, ap, sym, ◌∙◌, arith, inl, inr, Bool, true, false, not, ◌&&◌, List,
  [], ◌∷◌, length, ◌==◌, if◌then◌else◌, Bool-cases, sub_size_exact, size_mod,
}
use tzzero_http.Utils.MemoryPool.{
  Block, Pool, Address, at, null, foreign, get_used, release, release_in_blocks, deallocate,
}
use tzzero_http.Utils.MemoryPool.Slots.{get_used-set, release-IsCounted}
use tzzero_http.Utils.MemoryPool.Live.{is_live, same, total_used, AllCounted, IsValid}

release-get_used :
    (b : Block) (i l : ℕ)
    → i < length b.used
    → get_used (release b i).used l ≡ (if i == l then false else get_used b.used l)
unfolding release
release-get_used b i l h = get_used-set b.used i l false h

-- What the loop over the blocks does to them, seen at any object.
record Releases (size k i j l : ℕ) (bs : List Block) (r : Bool × List Block) : Type 0 where
  found : r.0 ≡ is_live bs k i
  counted : AllCounted size r.1
  one_less : r.0 ≡ true → suc (total_used r.1) ≡ total_used bs
  unchanged : r.0 ≡ false → r.1 ≡ bs
  now_live : is_live r.1 j l ≡ (not (same k i j l) && is_live bs j l)

release_here :
    (size i j l : ℕ) (b : Block) (bs : List Block)
    → size < size_mod
    → AllCounted size (b ∷ bs)
    → Releases size 0 i j l (b ∷ bs) (release_in_blocks (b ∷ bs) 0 i)
unfolding is_live total_used release_in_blocks
release_here size i j l b bs small v = elim (Bool-cases (get_used b.used i)) [
  | inl u ↦
      let (c, less, lt) = release-IsCounted size i b v.0 small u in
      let slot = release-get_used b i l (omega (arith, v.0.sized)) in
      elim j [ zero ↦ ground (arith, c, less, slot, u) | suc j' ↦ ground (arith, c, less, u) ]
  | inr u ↦ elim (Bool-cases (i == l)) [
    | inl e ↦ elim j [ zero ↦ ground (arith, u, e) | suc j' ↦ ground (arith, u) ]
    | inr e ↦ elim j [ zero ↦ ground (arith, u, e) | suc j' ↦ ground (arith, u) ]
  ]
]

release_there :
    (size k i l : ℕ) (b : Block) (bs : List Block)
    → AllCounted size (b ∷ bs)
    → ((j : ℕ) → Releases size k i j l bs (release_in_blocks bs k i))
    → (j : ℕ) → Releases size (suc k) i j l (b ∷ bs) (release_in_blocks (b ∷ bs) (suc k) i)
unfolding is_live total_used release_in_blocks
release_there size k i l b bs v later zero = let r = later 0 in ground (arith, r)
release_there size k i l b bs v later (suc j) = let r = later j in ground (arith, r)

release_in_blocks_lem :
    (bs : List Block) (size k i l : ℕ)
    → size < size_mod
    → AllCounted size bs
    → (j : ℕ) → Releases size k i j l bs (release_in_blocks bs k i)
release_in_blocks_lem [] size k i l small v j =
    unfold is_live total_used release_in_blocks in ground arith
release_in_blocks_lem (b ∷ bs) size zero i l small v j = release_here size i j l b bs small v
release_in_blocks_lem (b ∷ bs) size (suc k) i l small v j =
    release_there size k i l b bs v (release_in_blocks_lem bs size k i l small v.1) j

-- Whether the address is that of the object with this index in this block.
pub points : Address → ℕ → ℕ → Bool
points null j l = false
points foreign j l = false
points (at k i) j l = same k i j l

-- In a valid pool `deallocate` frees the object at its address and no other: afterwards an object
-- is in use exactly if it was before and is not the one given back, and the pool is valid again.
-- So a null pointer, an address outside the pool and an object that is already free change nothing.
pub deallocate_lem :
    (a : Address) (p : Pool)
    → IsValid p
    → p.allocated_count < size_mod
    → IsValid (deallocate a p)
      × ((j l : ℕ)
          → is_live (deallocate a p).blocks j l ≡ (not (points a j l) && is_live p.blocks j l))
unfolding deallocate points
deallocate_lem null p v s = (v, λ j l. refl)
deallocate_lem foreign p v s = (v, λ j l. refl)
deallocate_lem (at k i) p v s = elim (Bool-cases (release_in_blocks p.blocks k i).0) [
  | inl u ↦
      let r =
        λ (j : ℕ) (l : ℕ). release_in_blocks_lem p.blocks p.block_size k i l v.small v.counted j in
      let q = r 0 0 in
      (
        rw u (
            ground (
              arith,
              q.counted,
              q.one_less u,
              sub_size_exact p.allocated_count 1 (omega (arith, v.total, q.one_less u)) s,
            )),
        λ j l. rw u (r j l).now_live,
      )
  | inr u ↦
      let r =
        λ (j : ℕ) (l : ℕ). release_in_blocks_lem p.blocks p.block_size k i l v.small v.counted j in
      (
        rw u v,
        λ j l. rw u (
            let q = r j l in
            ap (λ (bs : List Block). is_live bs j l) (sym (q.unchanged u)) ∙ q.now_live),
      )
]
