-- ===== src/Utils/MemoryPool.antt =====
-- include/tzzero/utils/memory_pool.h: a pool of objects in blocks. An object's address is the
-- number of its block and its index there; the objects themselves and the lock, which makes each
-- call one step, are left out.
pub mod Slots
pub mod Live
pub mod Taken
pub mod Freed
mod Tests
use tzzero_http.Prelude.{
  ℕ, zero, suc, ◌+◌, ◌*◌, Bool, true, false, ltb, if◌then◌else◌, Option, none, some, List, [], ◌∷◌,
  ◌++◌, length, replicate, set, sub_size, add_size,
}

pub record Block : Type 0 where
  pub used : List Bool
  pub free_count : ℕ

pub record Pool : Type 0 where
  pub block_size : ℕ
  pub blocks : List Block
  pub allocated_count : ℕ

-- `nullptr`, an address in no block, or an object of a block.
pub data Address : Type 0 where
  null foreign : Address
  at : ℕ → ℕ → Address

unfoldable pub new_block : ℕ → Block
new_block size = record { used = replicate size false; free_count = size }

unfoldable pub add_block : Pool → Pool
unfolding new_block
add_block p = record p { blocks = p.blocks ++ new_block p.block_size ∷ [] }

unfoldable pub make : ℕ → Pool
unfolding add_block
make size = add_block (record { block_size = size; blocks = []; allocated_count = 0 })

unfoldable pub total_capacity : Pool → ℕ
total_capacity p = length p.blocks * p.block_size

-- The inner loop: the first index that is not used.
unfoldable pub first_free : List Bool → Option ℕ
first_free [] = none
first_free (u ∷ us) =
    let rest = first_free us in
    if u then elim rest [ none ↦ none | some n ↦ some (suc n) ] else some 0

unfoldable pub mark : Block → ℕ → Block
mark b i = record { used = set b.used i true; free_count = sub_size b.free_count 1 }

-- The slot of a block that the loop takes, if it takes one.
unfoldable pub take_slot : Block → Option ℕ
unfolding first_free
take_slot b = if ltb 0 b.free_count then first_free b.used else none

-- A slot of this block, or else what the later blocks gave.
unfoldable pub pick :
    Block → List Block → Option ℕ → Option (ℕ × ℕ × List Block) → Option (ℕ × ℕ × List Block)
unfolding mark
pick b bs (some i) rest = some (0, i, mark b i ∷ bs)
pick b bs none (some (k, i, bs')) = some (suc k, i, b ∷ bs')
pick b bs none none = none

-- The outer loop: the block, the index in it, and the blocks with the slot marked.
unfoldable pub take_in_blocks : List Block → Option (ℕ × ℕ × List Block)
unfolding take_slot pick
take_in_blocks [] = none
take_in_blocks (b ∷ bs) = pick b bs (take_slot b) (take_in_blocks bs)

-- In a new block, which stands behind the others.
unfoldable pub allocate_new : Pool → Address × Pool
unfolding mark new_block
allocate_new p = (
  at (length p.blocks) 0,
  record p {
    blocks = p.blocks ++ mark (new_block p.block_size) 0 ∷ [];
    allocated_count = add_size p.allocated_count 1;
  },
)

unfoldable pub allocate : Pool → Address × Pool
unfolding take_in_blocks allocate_new
allocate p = elim (take_in_blocks p.blocks) [
  | some (k, i, bs) ↦
      (at k i, record p { blocks = bs; allocated_count = add_size p.allocated_count 1 })
  | none ↦ allocate_new p
]

abbrev pub get_used : List Bool → ℕ → Bool
get_used [] i = false
get_used (u ∷ us) zero = u
get_used (u ∷ us) (suc i) = get_used us i

unfoldable pub release : Block → ℕ → Block
release b i = record { used = set b.used i false; free_count = add_size b.free_count 1 }

-- The block of the address: whether the object was in use, and the blocks without it.
unfoldable pub release_in_blocks : List Block → ℕ → ℕ → Bool × List Block
unfolding release
release_in_blocks [] k i = (false, [])
release_in_blocks (b ∷ bs) zero i =
    if get_used b.used i then (true, release b i ∷ bs) else (false, b ∷ bs)
release_in_blocks (b ∷ bs) (suc k) i =
    let (found, bs') = release_in_blocks bs k i in (found, b ∷ bs')

unfoldable pub deallocate : Address → Pool → Pool
unfolding release_in_blocks
deallocate null p = p
deallocate foreign p = p
deallocate (at k i) p =
    let (found, bs) = release_in_blocks p.blocks k i in
    if found then record p { blocks = bs; allocated_count = sub_size p.allocated_count 1 } else p
