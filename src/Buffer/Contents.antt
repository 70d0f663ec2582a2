-- ===== src/Buffer/Contents.antt =====
-- A buffer as a queue of bytes: what its operations do to the unread ones.
use tzzero_http.Prelude.{
  ℕ, ◌+◌, ◌-◌, ◌≤◌, ◌<◌, ◌≡◌, refl, sym, ap, ◌∙◌, arith, inl, inr, [], ◌++◌, length, slice, take,
  drop, copy_in, length-slice, resize, length-resize, length-copy_in, false, slice_self,
  slice-resize, slice-copy_in, slice-drop, slice-take, drop-length, add_size, add_size_exact,
  sub_size, sub_size_exact, slice-copy_in_front, Bytes, Bool, Bool-cases, ltb, ltb→lt, ltb→le,
}
use tzzero_http.Buffer.{
  Buffer, make, readable_bytes, writable_bytes, retrieve, retrieve_all, make_space, has_written,
  ensure_writable_bytes, append, prepend, write_at_end, prependable_bytes, to_string, peek_string,
}
use tzzero_http.Buffer.Bounds.{
  IsValid, max_size, readable_bytes_exact, writable_bytes_exact, ensure_writable_bytes-room,
  prepend-IsValid, write_at_end-IsValid,
}

pub to_string-slice :
    (b : Buffer) → IsValid b → to_string b ≡ slice b.read_index b.write_index b.store
unfolding to_string peek_string
to_string-slice b v = ap (λ k. slice b.read_index k b.store) (omega (arith, readable_bytes_exact v))

pub length-to_string : (b : Buffer) → IsValid b → length (to_string b) ≡ readable_bytes b
length-to_string b v =
    rw (to_string-slice b v, readable_bytes_exact v)
      (length-slice b.read_index b.write_index b.store v.inside)

pub to_string-make : (size : ℕ) → IsValid (make size) → to_string (make size) ≡ []
unfolding make
to_string-make size v = to_string-slice (make size) v ∙ slice_self 8 _

module _ {b : Buffer} (v : IsValid b) where
  pub to_string-retrieve_all : to_string (retrieve_all b) ≡ []
  unfolding retrieve_all
  to_string-retrieve_all = to_string-slice (retrieve_all b) (omega arith) ∙ slice_self 8 b.store

  -- A retrieve from a buffer in order drops the first `n` unread bytes, or all if there are fewer.
  pub to_string-retrieve : (n : ℕ) → to_string (retrieve b n) ≡ drop n (to_string b)
  unfolding retrieve
  to_string-retrieve n = elim (Bool-cases (ltb n (readable_bytes b))) [
    | inl h ↦
        let less = ltb→lt n (readable_bytes b) h in
        let exact : add_size b.read_index n ≡ b.read_index + n =
          add_size_exact b.read_index n (omega (arith, readable_bytes_exact v)) in
        rw h (
          to_string-slice (record b { read_index = add_size b.read_index n })
            (omega (arith, readable_bytes_exact v))
          ∙ slice-drop b.read_index n (add_size b.read_index n) b.write_index b.store exact
          ∙ ap (drop n) (sym (to_string-slice b v)))
    | inr h ↦
        rw (h, to_string-retrieve_all)
          (sym (
            drop-length n (to_string b)
              (omega (arith, ltb→le n (readable_bytes b) h, length-to_string b v))))
  ]

  pub peek_string-take : (n : ℕ) → n ≤ readable_bytes b → peek_string b n ≡ take n (to_string b)
  unfolding peek_string
  peek_string-take n h = rw (to_string-slice b v) (
      slice-take b.read_index n (b.read_index + n) b.write_index b.store refl
        (omega (arith, readable_bytes_exact v)))

  to_string-grow :
      (n : ℕ)
      → length b.store < n
      → n < max_size
      → to_string (record b { store = resize n 0 b.store }) ≡ to_string b
  to_string-grow n h small =
      to_string-slice (record b { store = resize n 0 b.store })
        (omega (arith, length-resize n 0 b.store, v.prepend_room))
      ∙ slice-resize b.read_index b.write_index n 0 b.store (omega arith) v.inside
      ∙ sym (to_string-slice b v)

  to_string-shift :
      (w : ℕ)
      → w ≡ 8 + (b.write_index - b.read_index)
      → w ≤ length b.store
      → (s : Bytes) → s ≡ copy_in b.store 8 (slice b.read_index b.write_index b.store)
      → to_string (record { store = s; read_index = 8; write_index = w }) ≡ to_string b
  to_string-shift w q h s e =
      let valid : IsValid (record { store = s; read_index = 8; write_index = w }) =
        rw e (omega (arith, length-copy_in b.store 8 (slice b.read_index b.write_index b.store))) in
      to_string-slice (record { store = s; read_index = 8; write_index = w }) valid
      ∙ rw
          (
            e,
            slice-copy_in 8 8 w b.store (slice b.read_index b.write_index b.store) (omega arith)
                (omega (arith, length-slice b.read_index b.write_index b.store v.inside)) h,
            slice_self 8 b.store,
          )
          (sym (to_string-slice b v))

  to_string-make_space :
      (n : ℕ)
      → length b.store < b.write_index + n
      → b.write_index + n < max_size
      → to_string (make_space b n) ≡ to_string b
  unfolding make_space prependable_bytes
  to_string-make_space n full h = elim (Bool-cases grow) [
    | inl e ↦
        rw e (to_string-grow (add_size b.write_index n) (omega (arith, sum)) (omega (arith, sum)))
    | inr e ↦ rw e (
        to_string-shift (add_size 8 (readable_bytes b)) (omega (arith, moved, readable))
          (omega (arith, moved, readable, fits e)) _ refl)
  ]
    where
      grow : Bool
      grow = ltb (add_size (writable_bytes b) b.read_index) (add_size n 8)

      sum : add_size b.write_index n ≡ b.write_index + n
      sum = add_size_exact b.write_index n (omega arith)

      readable : readable_bytes b ≡ b.write_index - b.read_index
      readable = readable_bytes_exact v

      moved : add_size 8 (readable_bytes b) ≡ 8 + readable_bytes b
      moved = add_size_exact 8 (readable_bytes b) (omega (arith, readable))

      fits : grow ≡ false → 8 + n + b.write_index ≤ length b.store + b.read_index
      fits e = omega (
        arith,
        ltb→le (add_size (writable_bytes b) b.read_index) (add_size n 8) e,
        writable_bytes_exact v,
        add_size_exact n 8 (omega arith),
        add_size_exact (writable_bytes b) b.read_index (omega (arith, writable_bytes_exact v)),
      )

  pub to_string-ensure_writable_bytes :
      (n : ℕ) → b.write_index + n < max_size → to_string (ensure_writable_bytes b n) ≡ to_string b
  unfolding ensure_writable_bytes
  to_string-ensure_writable_bytes n h =
      ground (arith, writable_bytes_exact v, to_string-make_space n)

  pub to_string-write_at_end :
      (d : Bytes)
      → b.write_index + length d ≤ length b.store
      → to_string (has_written (write_at_end b d) (length d)) ≡ to_string b ++ d
  unfolding write_at_end has_written
  to_string-write_at_end d h =
      to_string-slice (has_written (write_at_end b d) (length d)) (write_at_end-IsValid b d v h)
      ∙ slice-copy_in b.read_index b.write_index (add_size b.write_index (length d)) b.store d
          v.ordered sum (omega (arith, sum))
      ∙ ap (λ s. s ++ d) (sym (to_string-slice b v))
    where
      sum : add_size b.write_index (length d) ≡ b.write_index + length d
      sum = add_size_exact b.write_index (length d) (omega arith)

  -- In a buffer in order, bytes that fit in front are put before the unread ones.
  pub to_string-prepend :
      (d : Bytes) → length d ≤ b.read_index → to_string (prepend b d) ≡ d ++ to_string b
  unfolding prepend
  to_string-prepend d h =
      to_string-slice (prepend b d) (prepend-IsValid b d v h)
      ∙ slice-copy_in_front start b.read_index b.write_index b.store d (omega (arith, exact))
          v.ordered v.inside
      ∙ ap (λ s. d ++ s) (sym (to_string-slice b v))
    where
      start : ℕ
      start = sub_size b.read_index (length d)

      exact : start ≡ b.read_index - length d
      exact = sub_size_exact b.read_index (length d) h (omega arith)

-- An append to a buffer that is in order puts the bytes behind the unread ones, whether there is room
-- behind, the unread bytes are moved to the front, or the vector grows, if a vector can hold the bytes
-- behind the write index.
pub to_string-append :
    (b : Buffer) (d : Bytes)
    → IsValid b
    → b.write_index + length d < max_size
    → to_string (append b d) ≡ to_string b ++ d
unfolding append
to_string-append b d v h =
    let room = ensure_writable_bytes-room v (length d) h in
    to_string-write_at_end room.0 d room.1
    ∙ ap (λ s. s ++ d) (to_string-ensure_writable_bytes v (length d) h)
