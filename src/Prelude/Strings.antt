-- ===== src/Prelude/Strings.antt =====
-- `std::string` and `std::vector<char>` as lists of bytes.
use Prim.Native.Nat.{ℕ}
use Prim.Native.Char.{code}
use Prim.Native.String.{String}
use mathlib.Core.Path.{◌≡◌, refl}
use mathlib.Core.Logic.{◌↔◌}
use mathlib.Core.Bool.{Bool, true, false, ◌&&◌}
use mathlib.Core.List.{List, [], ◌∷◌}
use native.Mathlib.Omega.{arith}
use tzzero_http.Prelude.Tests.{◌==◌}

abbrev pub Bytes : Type 0
Bytes = List ℕ

-- The code points of a text: its bytes, if it is ASCII.
abbrev pub codes : String → Bytes
codes String.[] = []
codes (String.◌∷◌ c s) = code c ∷ codes s

-- `operator==` on `std::string`.
infix 50 ◌=?◌
unfoldable pub ◌=?◌ : Bytes → Bytes → Bool
[] =? [] = true
[] =? (y ∷ ys) = false
(x ∷ xs) =? [] = false
(x ∷ xs) =? (y ∷ ys) = x == y && xs =? ys

pub =?_sound : (xs ys : Bytes) → xs =? ys ≡ true → xs ≡ ys
unfolding ◌=?◌
=?_sound [] [] h = refl
=?_sound [] (y ∷ ys) h = absurd (cc)
=?_sound (x ∷ xs) [] h = absurd (cc)
=?_sound (x ∷ xs) (y ∷ ys) h = ground (arith, =?_sound xs ys)

pub =?_refl : (xs : Bytes) → xs =? xs ≡ true
unfolding ◌=?◌
=?_refl [] = refl
=?_refl (x ∷ xs) = ground (arith, =?_refl xs)

pub =?_iff : (xs ys : Bytes) → (xs =? ys ≡ true) ↔ (xs ≡ ys)
=?_iff xs ys = (=?_sound xs ys, λ e. subst_eq e)
  where
    subst_eq : xs ≡ ys → xs =? ys ≡ true
    subst_eq e = rw e (=?_refl ys)
