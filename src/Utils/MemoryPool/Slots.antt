-- ===== src/Utils/MemoryPool/Slots.antt =====
-- The slots of a block and their count.
use tzzero_http.Prelude.{
  ℕ, zero, suc, ◌+◌, ◌<◌, ◌≤◌, ◌≡◌, refl, ap, arith, Bool, true, false, if◌then◌else◌, none, some,
  List, [], ◌∷◌, length, replicate, set, length-set, sub_size_exact, add_size_exact, size_mod,
  length-replicate, ◌==◌,
}
use tzzero_http.Utils.MemoryPool.{Block, new_block, first_free, mark, get_used, release}

-- How many slots are used.
pub count_used : List Bool → ℕ
count_used [] = 0
count_used (true ∷ us) = suc (count_used us)
count_used (false ∷ us) = count_used us

pub count_used-le : (us : List Bool) → count_used us ≤ length us
unfolding count_used
count_used-le [] = omega arith
count_used-le (true ∷ us) = omega (arith, count_used-le us)
count_used-le (false ∷ us) = omega (arith, count_used-le us)

pub count_used-replicate : (n : ℕ) → count_used (replicate n false) ≡ 0
unfolding count_used
count_used-replicate zero = refl
count_used-replicate (suc n) = count_used-replicate n

pub get_used-replicate : (n i : ℕ) → get_used (replicate n false) i ≡ false
get_used-replicate zero i = refl
get_used-replicate (suc n) zero = refl
get_used-replicate (suc n) (suc i) = get_used-replicate n i

-- The slot that the loop finds is free and in the block.
pub first_free_lem :
    (us : List Bool) (i : ℕ)
    → first_free us ≡ some i
    → (get_used us i ≡ false) × (i < length us) × (count_used us < length us)
unfolding first_free count_used
first_free_lem [] i h = absurd (cc)
first_free_lem (true ∷ us) zero h = ground (arith)
first_free_lem (true ∷ us) (suc i) h = ground (arith, first_free_lem us i)
first_free_lem (false ∷ us) zero h = ground (arith, count_used-le us)
first_free_lem (false ∷ us) (suc i) h = ground arith

-- Where it finds none, all are used.
pub first_free-none : (us : List Bool) → first_free us ≡ none → count_used us ≡ length us
unfolding first_free count_used
first_free-none [] h = refl
first_free-none (true ∷ us) h = ground (arith, first_free-none us)
first_free-none (false ∷ us) h = ground arith

pub get_used-set :
    (us : List Bool) (i j : ℕ) (v : Bool)
    → i < length us
    → get_used (set us i v) j ≡ (if i == j then v else get_used us j)
get_used-set [] i j v h = absurd (omega arith)
get_used-set (u ∷ us) zero zero v h = refl
get_used-set (u ∷ us) zero (suc j) v h = ground arith
get_used-set (u ∷ us) (suc i) zero v h = ground arith
get_used-set (u ∷ us) (suc i) (suc j) v h = ground (arith, get_used-set us i j v)

pub count_used-set-true :
    (us : List Bool) (i : ℕ)
    → get_used us i ≡ false
    → i < length us
    → count_used (set us i true) ≡ suc (count_used us)
unfolding count_used
count_used-set-true [] i h k = absurd (omega arith)
count_used-set-true (true ∷ us) zero h k = cc
count_used-set-true (false ∷ us) zero h k = refl
count_used-set-true (true ∷ us) (suc i) h k = ap suc (count_used-set-true us i h (omega arith))
count_used-set-true (false ∷ us) (suc i) h k = count_used-set-true us i h (omega arith)

pub count_used-set-false :
    (us : List Bool) (i : ℕ)
    → get_used us i ≡ true
    → (suc (count_used (set us i false)) ≡ count_used us) × (i < length us)
unfolding count_used
count_used-set-false [] i h = cc
count_used-set-false (true ∷ us) zero h = ground arith
count_used-set-false (false ∷ us) zero h = cc
count_used-set-false (true ∷ us) (suc i) h = ground (arith, count_used-set-false us i)
count_used-set-false (false ∷ us) (suc i) h = ground (arith, count_used-set-false us i)

-- A block is in order: it has all its slots, and counts the free ones.
pub record IsCounted (size : ℕ) (b : Block) : Type 0 where
  pub sized : length b.used ≡ size
  pub counted : b.free_count + count_used b.used ≡ size

pub new_block-IsCounted : (size : ℕ) → IsCounted size (new_block size)
unfolding new_block
new_block-IsCounted size =
    omega (arith, length-replicate {A = Bool} size false, count_used-replicate size)

pub mark-IsCounted :
    (size i : ℕ) (b : Block)
    → IsCounted size b
    → size < size_mod
    → i < size
    → get_used b.used i ≡ false
    → IsCounted size (mark b i) × (count_used (mark b i).used ≡ suc (count_used b.used))
unfolding mark
mark-IsCounted size i b v small lt free =
    let more = count_used-set-true b.used i free (omega arith) in
    let room = count_used-le (set b.used i true) in
    ground (
      arith,
      more,
      room,
      length-set b.used i true,
      sub_size_exact b.free_count 1 (omega (arith, more, room, length-set b.used i true))
          (omega arith),
    )

pub release-IsCounted :
    (size i : ℕ) (b : Block)
    → IsCounted size b
    → size < size_mod
    → get_used b.used i ≡ true
    → IsCounted size (release b i)
      × (suc (count_used (release b i).used) ≡ count_used b.used)
      × (i < size)
unfolding release
release-IsCounted size i b v small used_ = ground (
  arith,
  count_used-set-false b.used i used_,
  count_used-le b.used,
  length-set b.used i false,
  add_size_exact b.free_count 1,
)
