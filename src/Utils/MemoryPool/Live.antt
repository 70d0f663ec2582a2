-- ===== src/Utils/MemoryPool/Live.antt =====
-- The pool as a set of objects in use.
use tzzero_http.Prelude.{
  ℕ, zero, suc, ◌+◌, ◌<◌, ◌≡◌, ◌⊎◌, arith, inl, inr, Bool, true, false, ◌&&◌, ◌||◌, Option, none,
  some, List, [], ◌∷◌, length, ◌==◌, if◌then◌else◌, All, size_mod,
}
use tzzero_http.Utils.MemoryPool.{Block, Pool, mark, take_slot, pick, take_in_blocks, get_used}
use tzzero_http.Utils.MemoryPool.Slots.{
  IsCounted, count_used, first_free_lem, get_used-set, mark-IsCounted,
}

-- Whether the object with this index in this block is in use.
unfoldable pub is_live : List Block → ℕ → ℕ → Bool
is_live [] k i = false
is_live (b ∷ bs) zero i = get_used b.used i
is_live (b ∷ bs) (suc k) i = is_live bs k i

abbrev pub same : ℕ → ℕ → ℕ → ℕ → Bool
same k i j l = k == j && i == l

unfoldable pub total_used : List Block → ℕ
total_used [] = 0
total_used (b ∷ bs) = count_used b.used + total_used bs

abbrev pub AllCounted : ℕ → List Block → Type 0
AllCounted size bs = All (IsCounted size) bs

pub record IsValid (p : Pool) : Type 0 where
  pub nonempty : 0 < p.block_size
  pub small : p.block_size < size_mod
  pub counted : AllCounted p.block_size p.blocks
  pub total : p.allocated_count ≡ total_used p.blocks

take_slot_lem :
    (size i : ℕ) (b : Block)
    → IsCounted size b
    → take_slot b ≡ some i
    → (get_used b.used i ≡ false) × (i < size)
unfolding take_slot
take_slot_lem size i b v h = ground (arith, first_free_lem b.used i)

pub mark-get_used :
    (b : Block) (i l : ℕ)
    → i < length b.used
    → get_used (mark b i).used l ≡ (if i == l then true else get_used b.used l)
unfolding mark
mark-get_used b i l h = get_used-set b.used i l true h

-- What the loop over the blocks does to them, seen at any object.
pub record Takes (size k i j l : ℕ) (bs bs' : List Block) : Type 0 where
  pub counted : AllCounted size bs'
  pub one_more : total_used bs' ≡ suc (total_used bs)
  pub was_free : is_live bs k i ≡ false
  pub now_live : is_live bs' j l ≡ (same k i j l || is_live bs j l)
  pub in_block : i < size

take_here :
    (size i j l : ℕ) (b : Block) (bs : List Block)
    → size < size_mod
    → AllCounted size (b ∷ bs)
    → take_slot b ≡ some i
    → Takes size 0 i j l (b ∷ bs) (mark b i ∷ bs)
unfolding is_live total_used
take_here size i zero l b bs small v h =
    let (free, lt) = take_slot_lem size i b v.0 h in
    let marked = mark-IsCounted size i b v.0 small lt free in
    let slot = mark-get_used b i l (omega (arith, v.0.sized)) in
    ground (arith, marked, slot, free, lt)
take_here size i (suc j) l b bs small v h =
    let (free, lt) = take_slot_lem size i b v.0 h in
    ground (arith, mark-IsCounted size i b v.0 small lt free, free, lt)

take_there :
    (size k i l : ℕ) (b : Block) (bs bs' : List Block)
    → AllCounted size (b ∷ bs)
    → ((j : ℕ) → Takes size k i j l bs bs')
    → (j : ℕ) → Takes size (suc k) i j l (b ∷ bs) (b ∷ bs')
unfolding is_live total_used
take_there size k i l b bs bs' v later zero = let t = later 0 in ground (arith, t)
take_there size k i l b bs bs' v later (suc j) = let t = later j in ground (arith, t)

-- The loop takes a slot of the first block, or of a later one.
abbrev Found :
    Block → List Block → Option ℕ → Option (ℕ × ℕ × List Block) → ℕ → ℕ → List Block → Type 0
Found b bs slot rest k i bs' =
    (k ≡ 0) × (slot ≡ some i) × (bs' ≡ mark b i ∷ bs)
    ⊎ ((k0 : ℕ) × (bs0 : List Block) × (k ≡ suc k0) × (rest ≡ some (k0, i, bs0)) × (bs' ≡ b ∷ bs0))

pick-Found :
    (b : Block) (bs bs' : List Block) (k i : ℕ) (slot : Option ℕ)
    (rest : Option (ℕ × ℕ × List Block))
    → pick b bs slot rest ≡ some (k, i, bs')
    → Found b bs slot rest k i bs'
unfolding pick
pick-Found b bs bs' k i (some i0) rest e = inl (ground arith, ground arith, ground (arith, e))
pick-Found b bs bs' k i none none e = absurd (cc)
pick-Found b bs bs' k i none (some (k0, i0, bs0)) e =
    inr (k0, bs0, ground arith, ground arith, ground arith)

take_in_blocks-cases :
    (b : Block) (bs bs' : List Block) (k i : ℕ)
    → take_in_blocks (b ∷ bs) ≡ some (k, i, bs')
    → Found b bs (take_slot b) (take_in_blocks bs) k i bs'
unfolding take_in_blocks
take_in_blocks-cases b bs bs' k i h = pick-Found b bs bs' k i (take_slot b) (take_in_blocks bs) h

pub take_in_blocks_lem :
    (bs bs' : List Block) (size k i l : ℕ)
    → size < size_mod
    → AllCounted size bs
    → take_in_blocks bs ≡ some (k, i, bs')
    → (j : ℕ) → Takes size k i j l bs bs'
take_in_blocks_lem [] bs' size k i l small v h j = absurd (unfold take_in_blocks in cc)
take_in_blocks_lem (b ∷ bs) bs' size k i l small v h j =
    elim (take_in_blocks-cases b bs bs' k i h) [
      | inl (first, slot, same_) ↦ rw (first, same_) (take_here size i j l b bs small v slot)
      | inr (k0, bs0, first, slot, same_) ↦
          rw (first, same_)
            (take_there size k0 i l b bs bs0 v
              (take_in_blocks_lem bs bs0 size k0 i l small v.1 slot) j)
    ]
