-- ===== src/Buffer/Ints.antt =====
-- The integer methods of src/utils/buffer.cpp. An `intN_t` is its bit pattern, a number below
-- `2 ^ N`; the host is little-endian, so `htons` and `htonl` reverse the bytes.
use tzzero_http.Prelude.{
  ℕ, ◌+◌, ◌*◌, ◌/◌, ◌%◌, ◌^◌, ◌<◌, ◌≤◌, ◌≡◌, refl, ap, ◌∙◌, arith, [], ◌∷◌, ◌++◌, append_assoc,
  Bytes, length, length-append, take, drop,
}
use tzzero_http.Buffer.{Buffer, append, retrieve, peek_string, to_string}
use tzzero_http.Buffer.Bounds.{IsValid, max_size, append-IsValid, append_growth}
use tzzero_http.Buffer.Contents.{
  to_string-append, to_string-retrieve, peek_string-take, length-to_string,
}

unfoldable pub htons : ℕ → ℕ
htons x = x % 256 * 256 + x / 256 % 256

unfoldable pub htonl : ℕ → ℕ
htonl x = x % 256 * 2 ^ 24 + x / 2 ^ 8 % 256 * 2 ^ 16 + x / 2 ^ 16 % 256 * 2 ^ 8 + x / 2 ^ 24 % 256

-- The bytes of a number in memory.
unfoldable pub memory16 : ℕ → Bytes
memory16 x = x % 256 ∷ x / 256 % 256 ∷ []

unfoldable pub memory32 : ℕ → Bytes
memory32 x = x % 256 ∷ x / 2 ^ 8 % 256 ∷ x / 2 ^ 16 % 256 ∷ x / 2 ^ 24 % 256 ∷ []

-- A load through a pointer; a byte past the end of the vector is read as 0.
unfoldable pub load8 : Bytes → ℕ
load8 [] = 0
load8 (a ∷ s) = a

unfoldable pub load16 : Bytes → ℕ
unfolding load8
load16 [] = 0
load16 (a ∷ s) = a + 256 * load8 s

unfoldable pub load32 : Bytes → ℕ
unfolding load16
load32 [] = 0
load32 (a ∷ []) = a
load32 (a ∷ b ∷ s) = a + 256 * b + 2 ^ 16 * load16 s

unfoldable pub append_int8 : Buffer → ℕ → Buffer
append_int8 b x = append b (x ∷ [])

unfoldable pub append_int16 : Buffer → ℕ → Buffer
append_int16 b x = append b (memory16 (htons x))

unfoldable pub append_int32 : Buffer → ℕ → Buffer
append_int32 b x = append b (memory32 (htonl x))

unfoldable pub append_int64 : Buffer → ℕ → Buffer
append_int64 b x = append_int32 (append_int32 b (x / 2 ^ 32 % 2 ^ 32)) (x % 2 ^ 32)

unfoldable pub peek_int8 : Buffer → ℕ
peek_int8 b = load8 (peek_string b 1)

unfoldable pub peek_int16 : Buffer → ℕ
peek_int16 b = htons (load16 (peek_string b 2))

unfoldable pub peek_int32 : Buffer → ℕ
peek_int32 b = htonl (load32 (peek_string b 4))

-- Both halves are read at `peek()`.
unfoldable pub peek_int64 : Buffer → ℕ
peek_int64 b = let high = peek_int32 b in let low = peek_int32 b in high * 2 ^ 32 % 2 ^ 64 + low

unfoldable pub read_int8 : Buffer → ℕ × Buffer
read_int8 b = (peek_int8 b, retrieve b 1)

unfoldable pub read_int16 : Buffer → ℕ × Buffer
read_int16 b = (peek_int16 b, retrieve b 2)

unfoldable pub read_int32 : Buffer → ℕ × Buffer
read_int32 b = (peek_int32 b, retrieve b 4)

unfoldable pub read_int64 : Buffer → ℕ × Buffer
read_int64 b = (peek_int64 b, retrieve b 8)

-- A number in network byte order.
abbrev pub big_endian16 : ℕ → Bytes
big_endian16 x = x / 256 ∷ x % 256 ∷ []

abbrev pub big_endian32 : ℕ → Bytes
big_endian32 x = x / 2 ^ 24 ∷ x / 2 ^ 16 % 256 ∷ x / 2 ^ 8 % 256 ∷ x % 256 ∷ []

abbrev pub big_endian64 : ℕ → Bytes
big_endian64 x = big_endian32 (x / 2 ^ 32) ++ big_endian32 (x % 2 ^ 32)

memory16-htons : (x : ℕ) → x < 2 ^ 16 → memory16 (htons x) ≡ big_endian16 x
unfolding memory16 htons
memory16-htons x h = ground arith

memory32-htonl : (x : ℕ) → x < 2 ^ 32 → memory32 (htonl x) ≡ big_endian32 x
unfolding memory32 htonl
memory32-htonl x h = ground arith

htons-load16 : (x : ℕ) → x < 2 ^ 16 → htons (load16 (big_endian16 x)) ≡ x
unfolding htons load16
htons-load16 x h = omega arith

htonl-load32 : (x : ℕ) → x < 2 ^ 32 → htonl (load32 (big_endian32 x)) ≡ x
unfolding htonl load32
htonl-load32 x h = omega arith

module _ (b : Buffer) (x : ℕ) (v : IsValid b) where
  pub append_int8_order :
      b.write_index + 1 < max_size → to_string (append_int8 b x) ≡ to_string b ++ x ∷ []
  unfolding append_int8
  append_int8_order h = to_string-append b (x ∷ []) v h

  pub append_int16_order :
      x < 2 ^ 16
      → b.write_index + 2 < max_size
      → to_string (append_int16 b x) ≡ to_string b ++ big_endian16 x
  unfolding append_int16
  append_int16_order k h = rw (memory16-htons x k) (to_string-append b (big_endian16 x) v h)

  pub append_int32_order :
      x < 2 ^ 32
      → b.write_index + 4 < max_size
      → to_string (append_int32 b x) ≡ to_string b ++ big_endian32 x
  unfolding append_int32
  append_int32_order k h = rw (memory32-htonl x k) (to_string-append b (big_endian32 x) v h)

module _ (b : Buffer) (x : ℕ) (rest : Bytes) (v : IsValid b) where
  prefix :
      (n : ℕ) (front : Bytes)
      → to_string b ≡ front ++ rest
      → n ≡ length front
      → (peek_string b n ≡ take n (front ++ rest))
        × (to_string (retrieve b n) ≡ drop n (front ++ rest))
  prefix n front e k = (
    peek_string-take v n
          (omega (arith, length-to_string b v, ap length e, length-append front rest))
        ∙ ap (take n) e,
    to_string-retrieve v n ∙ ap (drop n) e,
  )

  pub read_int8_order :
      to_string b ≡ x ∷ rest → ((read_int8 b).0 ≡ x) × (to_string (read_int8 b).1 ≡ rest)
  unfolding read_int8 peek_int8 load8
  read_int8_order e = let p = prefix 1 (x ∷ []) e refl in (ap load8 p.0, p.1)

  pub read_int16_order :
      x < 2 ^ 16
      → to_string b ≡ big_endian16 x ++ rest
      → ((read_int16 b).0 ≡ x) × (to_string (read_int16 b).1 ≡ rest)
  unfolding read_int16 peek_int16
  read_int16_order h e =
      let p = prefix 2 (big_endian16 x) e refl in
      (ap (λ s. htons (load16 s)) p.0 ∙ htons-load16 x h, p.1)

  -- If the four bytes of a number stand in front in network order, in a buffer in order, the read gives
  -- the number back and removes them.
  pub read_int32_order :
      x < 2 ^ 32
      → to_string b ≡ big_endian32 x ++ rest
      → ((read_int32 b).0 ≡ x) × (to_string (read_int32 b).1 ≡ rest)
  unfolding read_int32 peek_int32
  read_int32_order h e =
      let p = prefix 4 (big_endian32 x) e refl in
      (ap (λ s. htonl (load32 s)) p.0 ∙ htonl-load32 x h, p.1)

-- The 64-bit read removes the eight bytes of a number, and returns its high half twice.
pub read_int64_repeats_high :
    (b : Buffer) (x : ℕ) (rest : Bytes)
    → IsValid b
    → x < 2 ^ 64
    → to_string b ≡ big_endian64 x ++ rest
    → ((read_int64 b).0 ≡ x / 2 ^ 32 * 2 ^ 32 + x / 2 ^ 32) × (to_string (read_int64 b).1 ≡ rest)
unfolding read_int64 peek_int64 read_int32
read_int64_repeats_high b x rest v h e =
    let half =
      read_int32_order b (x / 2 ^ 32) (big_endian32 (x % 2 ^ 32) ++ rest) v (omega arith) e in
    (omega (arith, half.0), (prefix b x rest v 8 (big_endian64 x) e refl).1)

append_int32-lem :
    (b : Buffer) (x : ℕ)
    → IsValid b
    → length b.store + 4 < max_size
    → IsValid (append_int32 b x) × ((append_int32 b x).write_index ≤ length b.store + 4)
unfolding append_int32 memory32
append_int32-lem b x v h = (
  append-IsValid b (memory32 (htonl x)) v (omega arith),
  (append_growth b (memory32 (htonl x)) v (omega arith)).0,
)

-- The 64-bit write to a buffer in order appends the eight bytes of a number below 2 ^ 64 in network
-- order, if a vector can hold them behind the old one.
pub append_int64_order :
    (b : Buffer) (x : ℕ)
    → IsValid b
    → x < 2 ^ 64
    → length b.store + 8 < max_size
    → to_string (append_int64 b x) ≡ to_string b ++ big_endian64 x
unfolding append_int64
append_int64_order b x v k h =
    let high = x / 2 ^ 32 % 2 ^ 32 in
    let same : high ≡ x / 2 ^ 32 = omega arith in
    let first = append_int32-lem b high v (omega arith) in
    append_int32_order (append_int32 b high) (x % 2 ^ 32) first.0 (omega arith)
      (omega (arith, first.1))
    ∙ ap (λ s. s ++ big_endian32 (x % 2 ^ 32))
        (append_int32_order b high v (omega arith) (omega arith))
    ∙ append_assoc (to_string b) (big_endian32 high) (big_endian32 (x % 2 ^ 32))
    ∙ ap (λ n. to_string b ++ (big_endian32 n ++ big_endian32 (x % 2 ^ 32))) same
