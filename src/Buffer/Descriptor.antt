-- ===== src/Buffer/Descriptor.antt =====
-- `read_fd` and `write_fd` of src/utils/buffer.cpp.
use tzzero_http.Prelude.{
  ℕ, zero, suc, ◌+◌, ◌<◌, ◌≤◌, ◌≡◌, refl, ap, ◌∙◌, arith, inl, inr, [], ◌∷◌, ◌++◌, append_assoc,
  Bytes, length, take, slice, ltb, ltb→lt, ltb→le, Bool-cases, add_size_exact, length-slice,
  take-append-drop,
}
use tzzero_http.Buffer.{
  Buffer, to_string, writable_bytes, read_fd, write_fd, take_in, done, failed, write_at_end,
  has_written,
}
use tzzero_http.Buffer.Bounds.{
  IsValid, max_size, writable_bytes_exact, write_at_end-IsValid, append-IsValid, retrieve-IsValid,
}
use tzzero_http.Buffer.Contents.{to_string-append, to_string-retrieve, to_string-write_at_end}

slice-append-slice : (n : ℕ) (s : Bytes) → n ≤ length s → slice 0 n s ++ slice n (length s) s ≡ s
slice-append-slice zero [] h = refl
slice-append-slice zero (x ∷ s) h = ap (◌∷◌ x) (slice-append-slice zero s (omega arith))
slice-append-slice (suc n) [] h = absurd (omega arith)
slice-append-slice (suc n) (x ∷ s) h = ap (◌∷◌ x) (slice-append-slice n s (omega arith))

module _ {b : Buffer} (v : IsValid b) (bytes : Bytes)
    (small : length b.store + length bytes < max_size) where
  fill : Buffer
  fill = record (write_at_end b (slice 0 (writable_bytes b) bytes)) { write_index = length b.store }

  fill-write_at_end :
      writable_bytes b < length bytes
      → fill
        ≡ has_written
            (write_at_end b (slice 0 (writable_bytes b) bytes))
            (length (slice 0 (writable_bytes b) bytes))
  unfolding fill has_written write_at_end
  fill-write_at_end h = ground (
    arith,
    length-slice 0 (writable_bytes b) bytes (omega arith),
    writable_bytes_exact v,
    add_size_exact b.write_index (length (slice 0 (writable_bytes b) bytes)),
  )

  fill_end : fill.write_index ≡ length b.store
  unfolding fill
  fill_end = refl

  fill_lem :
      fill
      ≡ record (write_at_end b (slice 0 (writable_bytes b) bytes)) { write_index = length b.store }
  unfolding fill
  fill_lem = refl

  overflow_lem :
      writable_bytes b < length bytes
      → IsValid fill × (to_string fill ≡ to_string b ++ slice 0 (writable_bytes b) bytes)
  overflow_lem h =
      let first = slice 0 (writable_bytes b) bytes in
      let room : b.write_index + length first ≤ length b.store =
        omega
          (arith, length-slice 0 (writable_bytes b) bytes (omega arith), writable_bytes_exact v) in
      rw (fill-write_at_end h)
        (write_at_end-IsValid b first v room, to_string-write_at_end v first room)

  pub take_in_lem : IsValid (take_in b bytes) × (to_string (take_in b bytes) ≡ to_string b ++ bytes)
  unfolding take_in
  take_in_lem = elim (Bool-cases (ltb (writable_bytes b) (length bytes))) [
    | inl more ↦
        let h = ltb→lt (writable_bytes b) (length bytes) more in
        let over = overflow_lem h in
        let n = writable_bytes b in
        let rest = slice n (length bytes) bytes in
        let room : fill.write_index + length rest < max_size =
          omega (arith, fill_end, length-slice n (length bytes) bytes (omega arith)) in
        rw (more, ← fill_lem)
          (
            append-IsValid fill rest over.0 room,
            to_string-append fill rest over.0 room
                ∙ ap (λ s. s ++ rest) over.1
                ∙ append_assoc (to_string b) (slice 0 n bytes) rest
                ∙ ap (λ s. to_string b ++ s) (slice-append-slice n bytes (omega arith)),
          )
    | inr fits ↦
        let room : b.write_index + length bytes ≤ length b.store = omega (
          arith,
          ltb→le (writable_bytes b) (length bytes) fits,
          writable_bytes_exact v,
          v.inside,
        ) in
        rw fits (write_at_end-IsValid b bytes v room, to_string-write_at_end v bytes room)
  ]

-- After a `readv` that read some bytes into a buffer in order, the buffer is in order and its unread
-- bytes are those of before followed by all that was read, if a vector can hold the old vector and
-- these bytes; a failed call changes nothing.
pub read_fd_lem :
    (b : Buffer) (bytes : Bytes) (errno : ℕ)
    → IsValid b
    → length b.store + length bytes < max_size
    → IsValid (read_fd b (done bytes))
      × (to_string (read_fd b (done bytes)) ≡ to_string b ++ bytes)
      × (read_fd b (failed errno) ≡ b)
unfolding read_fd
read_fd_lem b bytes errno v h = let t = take_in_lem v bytes h in (t.0, t.1, refl)

-- After a `write` from a buffer in order, the buffer is in order, and the bytes that the call took
-- followed by the unread bytes are the unread bytes of before; a failed call changes nothing.
pub write_fd_lem :
    (b : Buffer) (n errno : ℕ)
    → IsValid b
    → IsValid (write_fd b (done n))
      × (take n (to_string b) ++ to_string (write_fd b (done n)) ≡ to_string b)
      × (write_fd b (failed errno) ≡ b)
unfolding write_fd
write_fd_lem b n errno v =
    (retrieve-IsValid v n, rw (to_string-retrieve v n) (take-append-drop n (to_string b)), refl)
