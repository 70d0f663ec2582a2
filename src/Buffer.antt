-- ===== src/Buffer.antt =====
-- include/tzzero/utils/buffer.h and src/utils/buffer.cpp: the byte queue of a connection.
-- `store` is `buffer_`; the bytes from `read_index` to before `write_index` are unread, and the
-- bytes before `read_index` can be prepended to. A method that changes the object returns the new
-- one. Sizes are `size_t`, with wrap-around. A copy past the end of the vector, undefined in the
-- source, writes nothing here, and a read past the end gives fewer bytes.
pub mod Bounds
pub mod Contents
pub mod Search
pub mod Ints
pub mod Descriptor
pub mod Moves
pub mod Samples
mod Tests
use tzzero_http.Prelude.{
  ℕ, zero, suc, ◌+◌, Bool, true, false, ◌&&◌, Option, none, some, List, [], ◌∷◌, ltb, ◌==◌,
  if◌then◌else◌, length, slice, copy_in, resize, replicate, add_size, sub_size, Bytes,
}

pub record Buffer : Type 0 where
  pub store : Bytes
  pub read_index : ℕ
  pub write_index : ℕ

abbrev pub cheap_prepend : ℕ
cheap_prepend = 8

abbrev pub initial_size : ℕ
initial_size = 1024

-- The constructor; a new vector holds zeros.
unfoldable pub make : ℕ → Buffer
make size = record {
  store = replicate (add_size cheap_prepend size) 0;
  read_index = cheap_prepend;
  write_index = cheap_prepend;
}

unfoldable pub readable_bytes : Buffer → ℕ
readable_bytes b = sub_size b.write_index b.read_index

unfoldable pub writable_bytes : Buffer → ℕ
writable_bytes b = sub_size (length b.store) b.write_index

unfoldable pub prependable_bytes : Buffer → ℕ
prependable_bytes b = b.read_index

unfoldable pub capacity : Buffer → ℕ
capacity b = length b.store

-- `std::string(peek(), len)`
unfoldable pub peek_string : Buffer → ℕ → Bytes
peek_string b len = slice b.read_index (b.read_index + len) b.store

unfoldable pub to_string : Buffer → Bytes
unfolding peek_string readable_bytes
to_string b = peek_string b (readable_bytes b)

unfoldable pub retrieve_all : Buffer → Buffer
retrieve_all b = record b { read_index = cheap_prepend; write_index = cheap_prepend }

unfoldable pub retrieve : Buffer → ℕ → Buffer
retrieve b len =
    if ltb len (readable_bytes b)
    then record b { read_index = add_size b.read_index len }
    else retrieve_all b

unfoldable pub retrieve_as_string : Buffer → ℕ → Bytes × Buffer
retrieve_as_string b len = (peek_string b len, retrieve b len)

unfoldable pub retrieve_all_as_string : Buffer → Bytes × Buffer
retrieve_all_as_string b = retrieve_as_string b (readable_bytes b)

unfoldable pub make_space : Buffer → ℕ → Buffer
make_space b len =
    if ltb (add_size (writable_bytes b) (prependable_bytes b)) (add_size len cheap_prepend)
    then record b { store = resize (add_size b.write_index len) 0 b.store }
    else record {
      store = copy_in b.store cheap_prepend (slice b.read_index b.write_index b.store);
      read_index = cheap_prepend;
      write_index = add_size cheap_prepend (readable_bytes b);
    }

unfoldable pub ensure_writable_bytes : Buffer → ℕ → Buffer
ensure_writable_bytes b len = if ltb (writable_bytes b) len then make_space b len else b

unfoldable pub has_written : Buffer → ℕ → Buffer
has_written b len = record b { write_index = add_size b.write_index len }

unfoldable pub unwrite : Buffer → ℕ → Buffer
unwrite b len = record b { write_index = sub_size b.write_index len }

-- `std::copy` to `begin_write()`
unfoldable pub write_at_end : Buffer → Bytes → Buffer
write_at_end b bytes = record b { store = copy_in b.store b.write_index bytes }

unfoldable pub append : Buffer → Bytes → Buffer
unfolding write_at_end has_written
append b bytes =
    has_written (write_at_end (ensure_writable_bytes b (length bytes)) bytes) (length bytes)

-- The source checks no bound.
unfoldable pub prepend : Buffer → Bytes → Buffer
prepend b bytes =
    let start = sub_size b.read_index (length bytes) in
    record b { store = copy_in b.store start bytes; read_index = start }

-- `std::search` for CR LF: the offset of the first one.
unfoldable pub search_crlf : Bytes → Option ℕ
search_crlf [] = none
search_crlf (c ∷ []) = none
search_crlf (c ∷ d ∷ s) =
    let rest = search_crlf (d ∷ s) in
    if c == b'\r' && d == b'\n' then some 0 else elim rest [ none ↦ none | some n ↦ some (suc n) ]

-- `memchr` for LF
unfoldable pub search_eol : Bytes → Option ℕ
search_eol [] = none
search_eol (c ∷ s) =
    let rest = search_eol s in
    if c == b'\n' then some 0 else elim rest [ none ↦ none | some n ↦ some (suc n) ]

-- The unread bytes from the index `start` on; a pointer result is its offset from `start`.
unfoldable pub find_crlf_from : Buffer → ℕ → Option ℕ
find_crlf_from b start = search_crlf (slice start b.write_index b.store)

unfoldable pub find_crlf : Buffer → Option ℕ
unfolding find_crlf_from
find_crlf b = find_crlf_from b b.read_index

unfoldable pub find_eol_from : Buffer → ℕ → Option ℕ
find_eol_from b start = search_eol (slice start b.write_index b.store)

unfoldable pub find_eol : Buffer → Option ℕ
unfolding to_string
find_eol b = search_eol (to_string b)

-- `readv` into the free end and a stack buffer: `bytes` is what the call read, in order.
unfoldable pub extra_size : ℕ
extra_size = 65536

-- The most that the call can read.
unfoldable pub read_room : Buffer → ℕ
unfolding extra_size
read_room b =
    if ltb (writable_bytes b) extra_size then writable_bytes b + extra_size else writable_bytes b

pub data SysResult {ℓ} (A : Type ℓ) : Type ℓ where
  done : A → SysResult A
  failed : ℕ → SysResult A

-- The part of `bytes` that fits went to the free end, the rest to the stack buffer.
unfoldable pub take_in : Buffer → Bytes → Buffer
unfolding write_at_end has_written append
take_in b bytes =
    let writable = writable_bytes b in
    if ltb writable (length bytes)
    then append (record (write_at_end b (slice 0 writable bytes)) { write_index = length b.store })
        (slice writable (length bytes) bytes)
    else has_written (write_at_end b bytes) (length bytes)

unfoldable pub read_fd : Buffer → SysResult Bytes → Buffer
unfolding take_in
read_fd b (done bytes) = take_in b bytes
read_fd b (failed errno) = b

-- `write` of the unread bytes: the call wrote the first `n`.
unfoldable pub write_fd : Buffer → SysResult ℕ → Buffer
unfolding retrieve
write_fd b (done n) = retrieve b n
write_fd b (failed errno) = b

-- An `iovec` is the index and the length of its part of the vector.
unfoldable pub get_readable_iovec : Buffer → List (ℕ × ℕ)
get_readable_iovec b =
    if ltb 0 (readable_bytes b) then (b.read_index, readable_bytes b) ∷ [] else []

unfoldable pub get_writable_iovec : Buffer → List (ℕ × ℕ)
get_writable_iovec b =
    if ltb 0 (writable_bytes b) then (b.write_index, writable_bytes b) ∷ [] else []

-- The two buffers after the call.
unfoldable pub swap : Buffer → Buffer → Buffer × Buffer
swap b other = (
  record { store = other.store; read_index = other.read_index; write_index = other.write_index },
  record { store = b.store; read_index = b.read_index; write_index = b.write_index },
)

unfoldable pub copy : Buffer → Buffer
copy other = record {
  store = other.store;
  read_index = other.read_index;
  write_index = other.write_index;
}

-- The move constructor and assignment: the new buffer, and what is left of `other`. A vector that
-- was moved from is empty.
unfoldable pub move : Buffer → Buffer × Buffer
move other = (
  record { store = other.store; read_index = other.read_index; write_index = other.write_index },
  record { store = []; read_index = cheap_prepend; write_index = cheap_prepend },
)
