-- ===== src/Prelude/Lists.antt =====
-- Lists measured, cut and overwritten by native numbers.
use Prim.Native.Nat.{ℕ, zero, suc, ◌+◌, ◌-◌, ◌≤◌}
use mathlib.Core.Path.{◌≡◌, refl, ap}
use mathlib.Core.List.{List, [], ◌∷◌, ◌++◌}
use mathlib.Core.Option.{Option, none, some}
use native.Mathlib.Omega.{arith}

module _ {ℓ} {A : Type ℓ} where
  abbrev pub length : List A → ℕ
  length [] = 0
  length (x ∷ xs) = suc (length xs)

  abbrev pub get_elem? : List A → ℕ → Option A
  get_elem? [] i = none
  get_elem? (x ∷ xs) zero = some x
  get_elem? (x ∷ xs) (suc i) = get_elem? xs i

  -- A write out of bounds changes nothing.
  abbrev pub set : List A → ℕ → A → List A
  set [] i v = []
  set (x ∷ xs) zero v = v ∷ xs
  set (x ∷ xs) (suc i) v = x ∷ set xs i v

  abbrev pub take : ℕ → List A → List A
  take zero xs = []
  take (suc n) [] = []
  take (suc n) (x ∷ xs) = x ∷ take n xs

  abbrev pub drop : ℕ → List A → List A
  drop zero xs = xs
  drop (suc n) [] = []
  drop (suc n) (x ∷ xs) = drop n xs

  abbrev pub replicate : ℕ → A → List A
  replicate zero a = []
  replicate (suc n) a = a ∷ replicate n a

  pub length-append : (xs ys : List A) → length (xs ++ ys) ≡ length xs + length ys
  length-append [] ys = omega arith
  length-append (x ∷ xs) ys = omega (arith, length-append xs ys)

  -- The elements at the indices from `r` to before `w`.
  abbrev pub slice : ℕ → ℕ → List A → List A
  slice zero zero s = []
  slice zero (suc w) [] = []
  slice zero (suc w) (x ∷ s) = x ∷ slice zero w s
  slice (suc r) zero s = []
  slice (suc r) (suc w) [] = []
  slice (suc r) (suc w) (x ∷ s) = slice r w s

  -- `std::copy` of `d` to the places from `i` on; a place past the end is not written.
  abbrev pub copy_in : List A → ℕ → List A → List A
  copy_in [] i d = []
  copy_in (x ∷ s) zero [] = x ∷ s
  copy_in (x ∷ s) zero (y ∷ d) = y ∷ copy_in s zero d
  copy_in (x ∷ s) (suc i) d = x ∷ copy_in s i d

  -- `std::vector::resize`, with `a` for the new places.
  abbrev pub resize : ℕ → A → List A → List A
  resize zero a s = []
  resize (suc n) a [] = a ∷ resize n a []
  resize (suc n) a (x ∷ s) = x ∷ resize n a s

module _ {ℓ} {A : Type ℓ} where
  pub length-set : (xs : List A) (i : ℕ) (v : A) → length (set xs i v) ≡ length xs
  length-set [] i v = refl
  length-set (x ∷ xs) zero v = refl
  length-set (x ∷ xs) (suc i) v = ap suc (length-set xs i v)

  pub length-copy_in : (s : List A) (i : ℕ) (d : List A) → length (copy_in s i d) ≡ length s
  length-copy_in [] i d = refl
  length-copy_in (x ∷ s) zero [] = refl
  length-copy_in (x ∷ s) zero (y ∷ d) = ap suc (length-copy_in s zero d)
  length-copy_in (x ∷ s) (suc i) d = ap suc (length-copy_in s i d)

  pub length-resize : (n : ℕ) (a : A) (s : List A) → length (resize n a s) ≡ n
  length-resize zero a s = refl
  length-resize (suc n) a [] = ap suc (length-resize n a [])
  length-resize (suc n) a (x ∷ s) = ap suc (length-resize n a s)

  pub length-replicate : (n : ℕ) (a : A) → length (replicate n a) ≡ n
  length-replicate zero a = refl
  length-replicate (suc n) a = ap suc (length-replicate n a)

  pub length-slice : (r w : ℕ) (s : List A) → w ≤ length s → length (slice r w s) ≡ w - r
  length-slice zero zero s h = omega arith
  length-slice zero (suc w) [] h = absurd (omega arith)
  length-slice zero (suc w) (x ∷ s) h = omega (arith, length-slice zero w s (omega arith))
  length-slice (suc r) zero s h = omega arith
  length-slice (suc r) (suc w) [] h = absurd (omega arith)
  length-slice (suc r) (suc w) (x ∷ s) h = omega (arith, length-slice r w s (omega arith))

  pub slice_self : (r : ℕ) (s : List A) → slice r r s ≡ []
  slice_self zero s = refl
  slice_self (suc r) [] = refl
  slice_self (suc r) (x ∷ s) = slice_self r s

  pub slice-nil : (r w : ℕ) → slice {A = A} r w [] ≡ []
  slice-nil zero zero = refl
  slice-nil zero (suc w) = refl
  slice-nil (suc r) zero = refl
  slice-nil (suc r) (suc w) = refl

  pub slice-resize :
      (r w n : ℕ) (a : A) (s : List A)
      → w ≤ n
      → w ≤ length s
      → slice r w (resize n a s) ≡ slice r w s
  slice-resize zero zero n a s h k = refl
  slice-resize zero (suc w) zero a s h k = absurd (omega arith)
  slice-resize zero (suc w) (suc n) a [] h k = absurd (omega arith)
  slice-resize zero (suc w) (suc n) a (x ∷ s) h k =
      ap (◌∷◌ x) (slice-resize zero w n a s (omega arith) (omega arith))
  slice-resize (suc r) zero n a s h k = refl
  slice-resize (suc r) (suc w) zero a s h k = absurd (omega arith)
  slice-resize (suc r) (suc w) (suc n) a [] h k = absurd (omega arith)
  slice-resize (suc r) (suc w) (suc n) a (x ∷ s) h k =
      slice-resize r w n a s (omega arith) (omega arith)

  -- What was copied to the end of a slice is its new tail.
  pub slice-copy_in :
      (r w e : ℕ) (s d : List A)
      → r ≤ w
      → e ≡ w + length d
      → e ≤ length s
      → slice r e (copy_in s w d) ≡ slice r w s ++ d
  slice-copy_in zero zero zero s [] h q k = refl
  slice-copy_in zero zero zero s (y ∷ d) h q k = absurd (omega arith)
  slice-copy_in zero zero (suc e) s [] h q k = absurd (omega arith)
  slice-copy_in zero zero (suc e) [] (y ∷ d) h q k = absurd (omega arith)
  slice-copy_in zero zero (suc e) (x ∷ s) (y ∷ d) h q k =
      ap (◌∷◌ y) (slice-copy_in zero zero e s d h (omega arith) (omega arith))
  slice-copy_in zero (suc w) zero s d h q k = absurd (omega arith)
  slice-copy_in zero (suc w) (suc e) [] d h q k = absurd (omega arith)
  slice-copy_in zero (suc w) (suc e) (x ∷ s) d h q k =
      ap (◌∷◌ x) (slice-copy_in zero w e s d (omega arith) (omega arith) (omega arith))
  slice-copy_in (suc r) zero e s d h q k = absurd (omega arith)
  slice-copy_in (suc r) (suc w) zero s d h q k = absurd (omega arith)
  slice-copy_in (suc r) (suc w) (suc e) [] d h q k = absurd (omega arith)
  slice-copy_in (suc r) (suc w) (suc e) (x ∷ s) d h q k =
      slice-copy_in r w e s d (omega arith) (omega arith) (omega arith)

  -- What was copied to just before a slice is its new front.
  pub slice-copy_in_front :
      (k r w : ℕ) (s d : List A)
      → r ≡ k + length d
      → r ≤ w
      → w ≤ length s
      → slice k w (copy_in s k d) ≡ d ++ slice r w s
  slice-copy_in_front zero zero w [] [] q h j = refl
  slice-copy_in_front zero zero w (x ∷ s) [] q h j = refl
  slice-copy_in_front zero zero w s (y ∷ d) q h j = absurd (omega arith)
  slice-copy_in_front zero (suc r) w s [] q h j = absurd (omega arith)
  slice-copy_in_front zero (suc r) zero s (y ∷ d) q h j = absurd (omega arith)
  slice-copy_in_front zero (suc r) (suc w) [] (y ∷ d) q h j = absurd (omega arith)
  slice-copy_in_front zero (suc r) (suc w) (x ∷ s) (y ∷ d) q h j =
      ap (◌∷◌ y) (slice-copy_in_front zero r w s d (omega arith) (omega arith) (omega arith))
  slice-copy_in_front (suc k) zero w s d q h j = absurd (omega arith)
  slice-copy_in_front (suc k) (suc r) zero s d q h j = absurd (omega arith)
  slice-copy_in_front (suc k) (suc r) (suc w) [] d q h j = absurd (omega arith)
  slice-copy_in_front (suc k) (suc r) (suc w) (x ∷ s) d q h j =
      slice-copy_in_front k r w s d (omega arith) (omega arith) (omega arith)

  -- To start a slice later is to drop from it.
  pub slice-drop : (r n k w : ℕ) (s : List A) → k ≡ r + n → slice k w s ≡ drop n (slice r w s)
  slice-drop zero zero zero w s q = refl
  slice-drop zero zero (suc k) w s q = absurd (omega arith)
  slice-drop zero (suc n) zero w s q = absurd (omega arith)
  slice-drop zero (suc n) (suc k) zero s q = refl
  slice-drop zero (suc n) (suc k) (suc w) [] q = refl
  slice-drop zero (suc n) (suc k) (suc w) (x ∷ s) q = slice-drop zero n k w s (omega arith)
  slice-drop (suc r) n zero w s q = absurd (omega arith)
  slice-drop (suc r) zero (suc k) zero s q = refl
  slice-drop (suc r) (suc n) (suc k) zero s q = refl
  slice-drop (suc r) zero (suc k) (suc w) [] q = refl
  slice-drop (suc r) (suc n) (suc k) (suc w) [] q = refl
  slice-drop (suc r) n (suc k) (suc w) (x ∷ s) q = slice-drop r n k w s (omega arith)

  -- To end a slice earlier is to take from it.
  pub slice-take :
      (r n k w : ℕ) (s : List A) → k ≡ r + n → k ≤ w → slice r k s ≡ take n (slice r w s)
  slice-take zero zero zero w s q h = refl
  slice-take zero zero (suc k) w s q h = absurd (omega arith)
  slice-take zero (suc n) zero w s q h = absurd (omega arith)
  slice-take zero (suc n) (suc k) zero s q h = absurd (omega arith)
  slice-take zero (suc n) (suc k) (suc w) [] q h = refl
  slice-take zero (suc n) (suc k) (suc w) (x ∷ s) q h =
      ap (◌∷◌ x) (slice-take zero n k w s (omega arith) (omega arith))
  slice-take (suc r) n zero w s q h = absurd (omega arith)
  slice-take (suc r) n (suc k) zero s q h = absurd (omega arith)
  slice-take (suc r) zero (suc k) (suc w) [] q h = refl
  slice-take (suc r) (suc n) (suc k) (suc w) [] q h = refl
  slice-take (suc r) n (suc k) (suc w) (x ∷ s) q h =
      slice-take r n k w s (omega arith) (omega arith)

  pub take-length : (n : ℕ) (xs : List A) → n ≡ length xs → take n xs ≡ xs
  take-length zero [] h = refl
  take-length zero (x ∷ xs) h = absurd (omega arith)
  take-length (suc n) [] h = refl
  take-length (suc n) (x ∷ xs) h = ap (◌∷◌ x) (take-length n xs (omega arith))

  pub drop-length : (n : ℕ) (xs : List A) → length xs ≤ n → drop n xs ≡ []
  drop-length zero [] h = refl
  drop-length zero (x ∷ xs) h = absurd (omega arith)
  drop-length (suc n) [] h = refl
  drop-length (suc n) (x ∷ xs) h = drop-length n xs (omega arith)

  pub length-drop : (n : ℕ) (xs : List A) → length (drop n xs) ≡ length xs - n
  length-drop zero xs = omega arith
  length-drop (suc n) [] = omega arith
  length-drop (suc n) (x ∷ xs) = omega (arith, length-drop n xs)

  pub length-take : (n : ℕ) (xs : List A) → n ≤ length xs → length (take n xs) ≡ n
  length-take zero xs h = refl
  length-take (suc n) [] h = absurd (omega arith)
  length-take (suc n) (x ∷ xs) h = ap suc (length-take n xs (omega arith))

  pub take-append-drop : (n : ℕ) (xs : List A) → take n xs ++ drop n xs ≡ xs
  take-append-drop zero xs = refl
  take-append-drop (suc n) [] = refl
  take-append-drop (suc n) (x ∷ xs) = ap (◌∷◌ x) (take-append-drop n xs)

  pub take-append : (n : ℕ) (xs ys : List A) → n ≤ length xs → take n (xs ++ ys) ≡ take n xs
  take-append zero xs ys h = refl
  take-append (suc n) [] ys h = absurd (omega arith)
  take-append (suc n) (x ∷ xs) ys h = ap (◌∷◌ x) (take-append n xs ys (omega arith))

  pub take-append_all : (xs ys : List A) → take (length xs) (xs ++ ys) ≡ xs
  take-append_all [] ys = refl
  take-append_all (x ∷ xs) ys = ap (◌∷◌ x) (take-append_all xs ys)

  pub drop-append_all : (xs ys : List A) → drop (length xs) (xs ++ ys) ≡ ys
  drop-append_all [] ys = refl
  drop-append_all (x ∷ xs) ys = drop-append_all xs ys

  pub drop-append_next : (s : List A) (k : A) (t : List A) → drop (suc (length s)) (s ++ k ∷ t) ≡ t
  drop-append_next [] k t = refl
  drop-append_next (x ∷ s) k t = drop-append_next s k t

  pub drop-append : (n : ℕ) (xs ys : List A) → n ≤ length xs → drop n (xs ++ ys) ≡ drop n xs ++ ys
  drop-append zero xs ys h = refl
  drop-append (suc n) [] ys h = absurd (omega arith)
  drop-append (suc n) (x ∷ xs) ys h = drop-append n xs ys (omega arith)

module _ {ℓ κ} {A : Type ℓ} (P : A → Type κ) where
  abbrev pub All : List A → Type κ
  All [] = Unit
  All (x ∷ xs) = P x × All xs

  pub All-append : (xs ys : List A) → All xs → All ys → All (xs ++ ys)
  All-append [] ys hx hy = hy
  All-append (x ∷ xs) ys hx hy = (hx.0, All-append xs ys hx.1 hy)
