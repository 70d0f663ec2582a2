-- ===== src/Buffer/Tests.antt =====
-- The methods of `Buffer` (src/utils/buffer.cpp) on small buffers.
use tzzero_http.Prelude.{
  ℕ, ◌+◌, ◌*◌, ◌^◌, ◌/◌, ◌≡◌, refl, arith, none, some, [], ◌++◌, Bytes, codes, length, add_size,
  sub_size,
}
use tzzero_http.Buffer.{
  make, append, to_string, done, failed, read_fd, search_crlf, move, ensure_writable_bytes,
  writable_bytes, make_space, prependable_bytes, readable_bytes,
}
use tzzero_http.Buffer.Bounds.{IsValid}
use tzzero_http.Buffer.Contents.{to_string-append}
use tzzero_http.Buffer.Descriptor.{read_fd_lem}
use tzzero_http.Buffer.Ints.{read_int64, read_int64_repeats_high, big_endian64}
use tzzero_http.Buffer.Moves.{ensure_writable_bytes-move}
use tzzero_http.Buffer.Samples.{holding, holding-IsValid, to_string-holding}

abbrev hello : Bytes
hello = codes "hello"

-- Longer than the room behind, so that the vector grows.
abbrev world : Bytes
world = codes ", whole wide world"

hello-IsValid : IsValid (holding hello)
hello-IsValid = holding-IsValid hello (omega arith)

hello-indices :
    ((holding hello).write_index ≡ 13)
    × ((holding hello).read_index ≡ 8)
    × (length (holding hello).store ≡ 13)
unfolding make append sub_size add_size ensure_writable_bytes writable_bytes make_space
    prependable_bytes readable_bytes
hello-indices = (refl, refl, refl)

to_string-append_example :
    to_string (append (holding hello) world) ≡ to_string (holding hello) ++ world
to_string-append_example =
    to_string-append (holding hello) world hello-IsValid (omega (arith, hello-indices.0))

read_fd_lem_example :
    IsValid (read_fd (holding hello) (done world))
    × (to_string (read_fd (holding hello) (done world)) ≡ to_string (holding hello) ++ world)
    × (read_fd (holding hello) (failed 11) ≡ holding hello)
read_fd_lem_example =
    read_fd_lem (holding hello) world 11 hello-IsValid (omega (arith, hello-indices.2))

abbrev two_lines : Bytes
two_lines = codes "ab\r\ncd\r\n"

two_lines-found : search_crlf two_lines ≡ some 2
unfolding search_crlf
two_lines-found = refl

ab-lacks : search_crlf (codes "ab") ≡ none
unfolding search_crlf
ab-lacks = refl

abbrev number : ℕ
number = 2 ^ 32 + 5

read_int64_repeats_high_example :
    ((read_int64 (holding (big_endian64 number ++ hello))).0
      ≡ number / 2 ^ 32 * 2 ^ 32 + number / 2 ^ 32)
    × (to_string (read_int64 (holding (big_endian64 number ++ hello))).1 ≡ hello)
read_int64_repeats_high_example =
    read_int64_repeats_high (holding (big_endian64 number ++ hello)) number hello
      (holding-IsValid (big_endian64 number ++ hello) (omega arith)) (omega arith)
      (to_string-holding (big_endian64 number ++ hello) (omega arith))

ensure_writable_bytes-move_example :
    (ensure_writable_bytes (move (holding hello)).1 64 ≡ (move (holding hello)).1)
    × ((ensure_writable_bytes (move (holding hello)).1 64).store ≡ [])
ensure_writable_bytes-move_example = ensure_writable_bytes-move (holding hello) 64 (omega arith)
