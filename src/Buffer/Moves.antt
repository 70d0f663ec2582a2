-- ===== src/Buffer/Moves.antt =====
-- Copying, moving and swapping buffers.
use tzzero_http.Prelude.{ℕ, ◌-◌, ◌^◌, ◌≤◌, ◌≡◌, refl, [], sub_size, le→ltb}
use tzzero_http.Buffer.{Buffer, copy, swap, move, writable_bytes, ensure_writable_bytes}

-- What is left of a buffer after a move says that it has 2 ^ 64 - 8 bytes of room.
pub writable_bytes-move : (b : Buffer) → writable_bytes (move b).1 ≡ 2 ^ 64 - 8
unfolding writable_bytes move sub_size
writable_bytes-move b = refl

-- A move gives the new buffer the unread bytes and the bounds of the old one, and a swap exchanges
-- them.
pub move_keeps : (b : Buffer) → ((move b).0 ≡ b) × (copy b ≡ b)
unfolding move copy
move_keeps b = (refl, refl)

pub swap-swap : (b c : Buffer) → swap b c ≡ (c, b)
unfolding swap
swap-swap b c = refl

-- A buffer that was moved from never grows: its room is computed as 2 ^ 64 - 8 bytes, so
-- `ensure_writable_bytes` leaves it with no storage for every request of up to that many bytes.
pub ensure_writable_bytes-move :
    (b : Buffer) (n : ℕ)
    → n ≤ 2 ^ 64 - 8
    → (ensure_writable_bytes (move b).1 n ≡ (move b).1)
      × ((ensure_writable_bytes (move b).1 n).store ≡ [])
unfolding ensure_writable_bytes move
ensure_writable_bytes-move b n h =
    (rw (writable_bytes-move b, le→ltb _ _ h) refl, rw (writable_bytes-move b, le→ltb _ _ h) refl)
