-- ===== src/Buffer/Samples.antt =====
-- Buffers for the tests: `Buffer` of include/tzzero/utils/buffer.h with given unread bytes.
use tzzero_http.Prelude.{add_size, sub_size, ◌+◌, ◌<◌, ◌≡◌, arith, Bytes, length}
use tzzero_http.Buffer.{Buffer, make, append, to_string}
use tzzero_http.Buffer.Bounds.{IsValid, max_size, make-IsValid, append-IsValid}
use tzzero_http.Buffer.Contents.{to_string-append}

-- A small buffer to which these bytes were appended.
abbrev pub holding : Bytes → Buffer
holding bytes = append (make 4) bytes

pub holding-IsValid : (bytes : Bytes) → 8 + length bytes < max_size → IsValid (holding bytes)
unfolding make
holding-IsValid bytes h = append-IsValid (make 4) bytes (make-IsValid 4 (omega arith)) h

pub to_string-holding :
    (bytes : Bytes) → 8 + length bytes < max_size → to_string (holding bytes) ≡ bytes
unfolding make to_string sub_size add_size
to_string-holding bytes h = to_string-append (make 4) bytes (make-IsValid 4 (omega arith)) h
