-- ===== src/Http/Server/Exchange/Truncated.antt =====
-- A response that closes its connection and that the kernel does not take at once.
use tzzero_http.Prelude.{
  ℕ, ◌+◌, ◌<◌, ◌≡◌, ◌≢◌, ◌⊎◌, ap, ◌∙◌, arith, inl, inr, true, false, ◌&&◌, some, List, [], ◌∷◌,
  ◌++◌, Bytes, length, length-append, take, drop, length-drop,
}
use tzzero_http.Buffer.{done, append, readable_bytes, to_string}
use tzzero_http.Buffer.Bounds.{IsValid, max_size, append-IsValid}
use tzzero_http.Buffer.Contents.{to_string-append, length-to_string}
use tzzero_http.Net.Connection.{
  Connection, connected, send_in_loop, shutdown, try_write, direct_write, keep_rest,
  warn_high_water, modify_fd, high_water_task,
}
use tzzero_http.Net.Connection.Events.{Event, run}
use tzzero_http.Net.Connection.Sending.{keep_rest-Keeps, direct_write-Takes}
use tzzero_http.Net.Connection.Watching.{send_in_loop-Same}
use tzzero_http.Net.Connection.Stalled.{quiet, quiet-append, shutdown-IsStalled, run-IsStalled}

module _ (text : Bytes) (n : ℕ) (c c' : Connection) where
  -- A send of which the kernel takes a part at once.
  part_sent :
      c.state ≡ connected
      → readable_bytes c.output ≡ 0
      → n < length text
      → send_in_loop text (done n) c ≡ some c'
      → keep_rest (drop n text) (direct_write text (done n) c).after ≡ some c'
  unfolding send_in_loop try_write direct_write
  part_sent e z l h = ground (arith, e, z, l)

  left_over :
      IsValid c.output
      → c.output.write_index + length text < max_size
      → n < length text
      → keep_rest (drop n text) (direct_write text (done n) c).after ≡ some c'
      → (readable_bytes c'.output ≢ 0)
        × (c'.sent ≡ c.sent ++ take n text)
        × (c'.write_shut ≡ c.write_shut)
  unfolding direct_write
  left_over v room l h =
      let t = direct_write-Takes text (done n) c (omega (arith, l)) in
      let k = keep_rest-Keeps (drop n text) (direct_write text (done n) c).after c' h in
      let output : c'.output ≡ append c.output (drop n text) =
        k.kept ∙ ap (λ b. append b (drop n text)) t.same_output in
      let room' : c.output.write_index + length (drop n text) < max_size =
        omega (arith, room, length-drop n text) in
      let whole : length (to_string (append c.output (drop n text)))
          ≡ length (to_string c.output ++ drop n text) =
        ap length (to_string-append c.output (drop n text) v room') in
      let valid = append-IsValid c.output (drop n text) v room' in
      (
        λ z. omega (
          arith,
          l,
          z,
          ap readable_bytes output,
          whole,
          length-to_string (append c.output (drop n text)) valid,
          length-append (to_string c.output) (drop n text),
          length-drop n text,
        ),
        k.same_sent ∙ t.taken,
        k.same_shut ∙ t.same_shut,
      )

  direct-queued : n < length text → (direct_write text (done n) c).after.queued ≡ c.queued
  unfolding direct_write
  direct-queued l = ground (arith, l)

keep_rest-queued :
    (rest : Bytes) (c c' : Connection)
    → keep_rest rest c ≡ some c'
    → (c'.queued ≡ c.queued)
      ⊎ (c'.queued ≡ c.queued ++ high_water_task (readable_bytes c.output + length rest) ∷ [])
unfolding keep_rest warn_high_water modify_fd
keep_rest-queued rest c c' h = ground (arith, h)

kept_quiet :
    (rest : Bytes) (c c' : Connection)
    → quiet c.queued ≡ true
    → keep_rest rest c ≡ some c'
    → quiet c'.queued ≡ true
kept_quiet rest c c' q h = elim (keep_rest-queued rest c c' h) [
  | inl e ↦ ap quiet e ∙ q
  | inr e ↦
      ap quiet e
      ∙ quiet-append c.queued (high_water_task (readable_bytes c.output + length rest))
      ∙ ap (λ b. b && true) q
]

-- A connection that is connected and has nothing waiting sends a text of which the kernel takes a part
-- at once, and is shut down behind it, as `on_request` does with a response that closes: whatever
-- happens to the connection then, the rest of the text is never sent, and the sending side is never
-- shut. The conditions are an output buffer in order in which the text fits, a sending side that is
-- open, and no message of another thread in the queue.
pub truncated_lem :
    (text : Bytes) (n : ℕ) (c c' d : Connection) (es : List Event)
    → c.state ≡ connected
    → readable_bytes c.output ≡ 0
    → IsValid c.output
    → c.output.write_index + length text < max_size
    → n < length text
    → c.write_shut ≡ false
    → quiet c.queued ≡ true
    → send_in_loop text (done n) c ≡ some c'
    → run es (shutdown true c') ≡ some d
    → (d.sent ≡ c.sent ++ take n text) × (d.write_shut ≡ false)
truncated_lem text n c c' d es e z v room l open_ q h r =
    let kept = part_sent text n c c' e z l h in
    let (waits, sent, shut) = left_over text n c c' v room l kept in
    let state = (send_in_loop-Same text (done n) c c' h).same_state ∙ e in
    let quiet_still =
      kept_quiet (drop n text) (direct_write text (done n) c).after c'
        (ap quiet (direct-queued text n c c' l) ∙ q) kept in
    let stalled = shutdown-IsStalled c' state waits (shut ∙ open_) quiet_still true in
    let after = run-IsStalled es c'.sent (shutdown true c') d stalled r in
    (after.sent_before ∙ sent, after.open_side)
