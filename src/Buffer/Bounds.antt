-- ===== src/Buffer/Bounds.antt =====
-- The bounds on the indices of a buffer.
use tzzero_http.Prelude.{
  ℕ, ◌+◌, ◌-◌, ◌^◌, ◌≤◌, ◌<◌, ◌≡◌, arith, length, slice, length-copy_in, length-resize,
  length-replicate, add_size, add_size_exact, sub_size_exact, sub_size, Bytes,
}
use tzzero_http.Buffer.{
  Buffer, make, readable_bytes, writable_bytes, retrieve, retrieve_all, make_space, has_written,
  ensure_writable_bytes, append, prepend, write_at_end, cheap_prepend, prependable_bytes,
}

-- What a vector can hold: half the address space.
abbrev pub max_size : ℕ
max_size = 2 ^ 63

pub record IsValid (b : Buffer) : Type 0 where
  pub prepend_room : cheap_prepend ≤ length b.store
  pub ordered : b.read_index ≤ b.write_index
  pub inside : b.write_index ≤ length b.store
  pub small : length b.store < max_size

pub make-IsValid : (size : ℕ) → size + 8 < max_size → IsValid (make size)
unfolding make
make-IsValid size h =
    omega (arith, add_size_exact 8 size (omega arith), length-replicate {A = ℕ} (add_size 8 size) 0)

module _ {b : Buffer} (v : IsValid b) where
  pub readable_bytes_exact : readable_bytes b ≡ b.write_index - b.read_index
  unfolding readable_bytes
  readable_bytes_exact = sub_size_exact b.write_index b.read_index v.ordered (omega arith)

  pub writable_bytes_exact : writable_bytes b ≡ length b.store - b.write_index
  unfolding writable_bytes
  writable_bytes_exact = sub_size_exact (length b.store) b.write_index v.inside (omega arith)

  pub retrieve_all-IsValid : IsValid (retrieve_all b)
  unfolding retrieve_all
  retrieve_all-IsValid = omega arith

  pub retrieve-IsValid : (n : ℕ) → IsValid (retrieve b n)
  unfolding retrieve retrieve_all
  retrieve-IsValid n = ground (arith, readable_bytes_exact, add_size_exact b.read_index n)

  -- Room is made for `n` bytes, behind the unread ones.
  pub make_space-room :
      (n : ℕ)
      → length b.store < b.write_index + n
      → b.write_index + n < max_size
      → IsValid (make_space b n)
        × ((make_space b n).write_index + n ≤ length (make_space b n).store)
  unfolding make_space prependable_bytes
  make_space-room n full h = ground (
    arith,
    readable_bytes_exact,
    writable_bytes_exact,
    add_size_exact (writable_bytes b) b.read_index (omega (arith, writable_bytes_exact)),
    add_size_exact n 8 (omega arith),
    add_size_exact b.write_index n (omega arith),
    add_size_exact 8 (readable_bytes b) (omega (arith, readable_bytes_exact)),
    length-resize (add_size b.write_index n) 0 b.store,
    length-copy_in b.store 8 (slice b.read_index b.write_index b.store),
  )

  pub ensure_writable_bytes-room :
      (n : ℕ)
      → b.write_index + n < max_size
      → IsValid (ensure_writable_bytes b n)
        × ((ensure_writable_bytes b n).write_index + n ≤ length (ensure_writable_bytes b n).store)
  unfolding ensure_writable_bytes
  ensure_writable_bytes-room n h = ground (arith, writable_bytes_exact, make_space-room n)

-- How far a vector and its end move when `n` bytes are added.
ensure_writable_bytes_growth :
    (b : Buffer) (n : ℕ)
    → IsValid b
    → b.write_index + n < max_size
    → ((ensure_writable_bytes b n).write_index ≤ length b.store)
      × (length (ensure_writable_bytes b n).store ≤ length b.store + n)
unfolding ensure_writable_bytes make_space prependable_bytes
ensure_writable_bytes_growth b n v h = ground (
  arith,
  readable_bytes_exact v,
  writable_bytes_exact v,
  add_size_exact (writable_bytes b) b.read_index (omega (arith, writable_bytes_exact v)),
  add_size_exact n 8 (omega arith),
  add_size_exact b.write_index n (omega arith),
  add_size_exact 8 (readable_bytes b) (omega (arith, readable_bytes_exact v)),
  length-resize (add_size b.write_index n) 0 b.store,
  length-copy_in b.store 8 (slice b.read_index b.write_index b.store),
)

-- The source's `prepend` checks nothing: the caller must leave room in front.
pub prepend-IsValid :
    (b : Buffer) (bytes : Bytes)
    → IsValid b
    → length bytes ≤ b.read_index
    → IsValid (prepend b bytes)
unfolding prepend
prepend-IsValid b bytes v h = ground (
  arith,
  sub_size_exact b.read_index (length bytes),
  length-copy_in b.store (sub_size b.read_index (length bytes)) bytes,
)

-- Bytes written where there is room.
pub write_at_end-IsValid :
    (b : Buffer) (bytes : Bytes)
    → IsValid b
    → b.write_index + length bytes ≤ length b.store
    → IsValid (has_written (write_at_end b bytes) (length bytes))
unfolding has_written write_at_end
write_at_end-IsValid b bytes v h =
    ground (
      arith,
      add_size_exact b.write_index (length bytes),
      length-copy_in b.store b.write_index bytes,
    )

-- An append keeps the indices in order and inside the vector, if a vector can hold the result.
pub append-IsValid :
    (b : Buffer) (bytes : Bytes)
    → IsValid b
    → b.write_index + length bytes < max_size
    → IsValid (append b bytes)
unfolding append
append-IsValid b bytes v h =
    let room = ensure_writable_bytes-room v (length bytes) h in
    write_at_end-IsValid (ensure_writable_bytes b (length bytes)) bytes room.0 room.1

-- After an append to a buffer in order, the vector and the write index are at most as large as the
-- old vector and the new bytes together, if a vector can hold the result.
pub append_growth :
    (b : Buffer) (bytes : Bytes)
    → IsValid b
    → b.write_index + length bytes < max_size
    → ((append b bytes).write_index ≤ length b.store + length bytes)
      × (length (append b bytes).store ≤ length b.store + length bytes)
unfolding append write_at_end has_written
append_growth b bytes v h =
    let e = ensure_writable_bytes b (length bytes) in
    let room = ensure_writable_bytes-room v (length bytes) h in
    omega (
      arith,
      ensure_writable_bytes_growth b (length bytes) v h,
      room.1,
      room.0.small,
      add_size_exact e.write_index (length bytes) (omega (arith, room.1, room.0.small)),
      length-copy_in e.store e.write_index bytes,
    )
