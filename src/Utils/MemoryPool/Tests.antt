-- ===== src/Utils/MemoryPool/Tests.antt =====
-- `allocate` and `deallocate` of include/tzzero/utils/memory_pool.h on a pool of two objects.
use tzzero_http.Prelude.{ℕ, add_size, ◌≡◌, refl, arith, not, ◌&&◌, false}
use tzzero_http.Utils.MemoryPool.{Pool, at, make, allocate, deallocate}
use tzzero_http.Utils.MemoryPool.Freed.{points, deallocate_lem}
use tzzero_http.Utils.MemoryPool.Live.{IsValid, is_live}
use tzzero_http.Utils.MemoryPool.Taken.{Handed, make-IsValid, allocate_lem}

make-IsValid_example : IsValid (make 2) × ((k i : ℕ) → is_live (make 2).blocks k i ≡ false)
make-IsValid_example = make-IsValid 2 (omega arith) (omega arith)

two : IsValid (make 2)
two = (make-IsValid 2 (omega arith) (omega arith)).0

two-unused : (make 2).allocated_count ≡ 0
unfolding make
two-unused = refl

allocate_lem_example : Handed (make 2) (allocate (make 2)).0 (allocate (make 2)).1
allocate_lem_example = allocate_lem (make 2) two (omega (arith, two-unused))

abbrev one_taken : Pool
one_taken = (allocate (make 2)).1

one_taken-count : one_taken.allocated_count ≡ 1
unfolding allocate make add_size
one_taken-count = refl

deallocate_lem_example :
    IsValid (deallocate (at 0 0) one_taken)
    × ((j l : ℕ)
        → is_live (deallocate (at 0 0) one_taken).blocks j l
          ≡ (not (points (at 0 0) j l) && is_live one_taken.blocks j l))
deallocate_lem_example =
    deallocate_lem (at 0 0) one_taken (allocate_lem (make 2) two (omega (arith, two-unused))).valid
      (omega (arith, one_taken-count))
