-- ===== src/Http/Numbers.antt =====
-- What the HTTP code uses of the standard library for characters and decimal numbers: `::tolower`
-- and `isspace` in the C locale, `std::to_string` and `std::stoull`.
use tzzero_http.Prelude.{
  ℕ, zero, suc, ◌+◌, ◌-◌, ◌*◌, ◌/◌, ◌%◌, ◌^◌, ◌≤◌, ◌<◌, ◌≡◌, refl, ap, ◌∙◌, arith, Bool, true,
  false, not, ◌&&◌, ◌||◌, ◌==◌, ltb, leb, if◌then◌else◌, Option, none, some, [], ◌∷◌, ◌++◌, Bytes,
  inl, inr, Bool-cases, ltb→lt, ltb→le, sym, length,
}

unfoldable pub to_lower : ℕ → ℕ
to_lower c = if leb b'A' c && leb c b'Z' then c + 32 else c

unfoldable pub is_space : ℕ → Bool
is_space c = c == b' ' || (leb 9 c && leb c 13)

unfoldable pub is_digit : ℕ → Bool
is_digit c = leb b'0' c && leb c b'9'

unfoldable pub lower : Bytes → Bytes
unfolding to_lower
lower [] = []
lower (c ∷ s) = to_lower c ∷ lower s

pub lower_idempotent : (s : Bytes) → lower (lower s) ≡ lower s
unfolding lower
lower_idempotent [] = refl
lower_idempotent (c ∷ s) = ground (arith, lower_idempotent s)

pub lower-append : (s t : Bytes) → lower (s ++ t) ≡ lower s ++ lower t
unfolding lower
lower-append [] t = refl
lower-append (c ∷ s) t = ap (◌∷◌ (to_lower c)) (lower-append s t)

-- `std::to_string` of an unsigned number; one more round of fuel than the number is enough.
decimal_onto : ℕ → ℕ → Bytes → Bytes
decimal_onto zero n out = out
decimal_onto (suc fuel) n out = elim (ltb n 10) [
  | true ↦ (b'0' + n) ∷ out
  | false ↦ decimal_onto fuel (n / 10) ((b'0' + n % 10) ∷ out)
]

unfoldable pub decimal : ℕ → Bytes
unfolding decimal_onto
decimal n = decimal_onto (suc n) n []

-- The digits at the front, behind the number `n` read so far.
scan : Bytes → ℕ → ℕ
unfolding is_digit
scan [] n = n
scan (c ∷ s) n = elim (is_digit c) [ true ↦ scan s (n * 10 + (c - b'0')) | false ↦ n ]

starts_with_digit : Bytes → Bool
unfolding is_digit
starts_with_digit [] = false
starts_with_digit (c ∷ s) = is_digit c

-- `none` stands for `std::invalid_argument` and `std::out_of_range`; a minus sign negates the
-- number modulo 2 ^ 64.
unsigned : Bool → Bytes → Option ℕ
unfolding scan starts_with_digit
unsigned negative s =
    if not (starts_with_digit s)
    then none
    else if ltb (2 ^ 64 - 1) (scan s 0)
    then none
    else some (if negative then (2 ^ 64 - scan s 0) % 2 ^ 64 else scan s 0)

skip_space : Bytes → Bytes
unfolding is_space
skip_space [] = []
skip_space (c ∷ s) = if is_space c then skip_space s else c ∷ s

signed : Bytes → Option ℕ
unfolding unsigned
signed [] = none
signed (c ∷ s) =
    if c == b'-'
    then unsigned true s
    else if c == b'+'
    then unsigned false s
    else unsigned false (c ∷ s)

unfoldable pub stoull : Bytes → Option ℕ
unfolding signed skip_space
stoull s = signed (skip_space s)

scan-decimal_onto :
    (fuel n : ℕ) (out : Bytes) → n < fuel → scan (decimal_onto fuel n out) 0 ≡ scan out n
unfolding scan decimal_onto
scan-decimal_onto zero n out h = absurd (omega arith)
scan-decimal_onto (suc fuel) n out h =
    ground (arith, scan-decimal_onto fuel (n / 10) ((b'0' + n % 10) ∷ out))

-- A decimal begins with a digit.
decimal_onto-digit :
    (fuel n : ℕ) (out : Bytes)
    → n < fuel
    → (d : ℕ) × (s : Bytes) × (decimal_onto fuel n out ≡ d ∷ s) × (b'0' ≤ d) × (d ≤ b'9')
unfolding decimal_onto
decimal_onto-digit zero n out h = absurd (omega arith)
decimal_onto-digit (suc fuel) n out h = elim (Bool-cases (ltb n 10)) [
  | inl e ↦ (b'0' + n, out, rw (e, decimal_onto), omega arith, omega (arith, ltb→lt n 10 e))
  | inr e ↦
      let (d, s, p, lo, hi) =
        decimal_onto-digit fuel (n / 10) ((b'0' + n % 10) ∷ out) (omega (arith, ltb→le n 10 e)) in
      (d, s, rw (e, decimal_onto) p, lo, hi)
]

stoull-digits :
    (d n : ℕ) (s : Bytes)
    → b'0' ≤ d
    → d ≤ b'9'
    → scan (d ∷ s) 0 ≡ n
    → n < 2 ^ 64
    → stoull (d ∷ s) ≡ some n
unfolding stoull
stoull-digits d n s lo hi e h = ground arith

-- Reading a printed number gives it back, if it fits in 64 bits.
pub stoull-decimal : (n : ℕ) → n < 2 ^ 64 → stoull (decimal n) ≡ some n
unfolding decimal
stoull-decimal n h =
    let (d, s, p, lo, hi) = decimal_onto-digit (suc n) n [] (omega arith) in
    ap stoull p
    ∙ stoull-digits d n s lo hi
        (ap (λ t. scan t 0) (sym p) ∙ scan-decimal_onto (suc n) n [] (omega arith) ∙ scan-nil n) h
  where
    scan-nil : (n : ℕ) → scan [] n ≡ n
    scan-nil n = unfold scan in refl

-- The powers of ten.
abbrev pub ten_to : ℕ → ℕ
ten_to zero = 1
ten_to (suc k) = 10 * ten_to k

length-decimal_onto :
    (fuel k n : ℕ) (out : Bytes)
    → n < ten_to (suc k)
    → length (decimal_onto fuel n out) ≤ suc k + length out
unfolding decimal_onto
length-decimal_onto zero k n out h = omega arith
length-decimal_onto (suc fuel) zero n out h = ground arith
length-decimal_onto (suc fuel) (suc k) n out h =
    ground (arith, length-decimal_onto fuel k (n / 10) ((b'0' + n % 10) ∷ out))

-- A number below a power of ten has no more digits than the power has zeros.
pub length-decimal : (k n : ℕ) → n < ten_to (suc k) → length (decimal n) ≤ suc k
unfolding decimal
length-decimal k n h = omega (arith, length-decimal_onto (suc n) k n [] h)

pub decimal_injective : (a b : ℕ) → a < 2 ^ 64 → b < 2 ^ 64 → decimal a ≡ decimal b → a ≡ b
decimal_injective a b h k e =
    some_injective (sym (stoull-decimal a h) ∙ ap stoull e ∙ stoull-decimal b k)
  where
    some_injective : {a b : ℕ} → some a ≡ some b → a ≡ b
    some_injective q = cc
