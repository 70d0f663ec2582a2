-- ===== src/Net/Connection/Delivery.antt =====
-- The bytes of a connection in order: what the kernel took, then what waits in the output buffer.
use tzzero_http.Prelude.{
  ◌⊎◌, ℕ, zero, suc, ◌+◌, ◌<◌, ◌≤◌, ◌≡◌, refl, sym, ap, ◌∙◌, arith, inl, inr, true, not, ◌&&◌, ltb,
  ◌==◌, if◌then◌else◌, none, some, ◌++◌, append_assoc, append-nil, Bytes, length, take, drop,
  length-drop, Bool-cases, drop-length, subst, le→ltb,
}
use tzzero_http.Buffer.{Buffer, SysResult, done, failed, readable_bytes, to_string, write_fd}
use tzzero_http.Buffer.Bounds.{IsValid, max_size}
use tzzero_http.Buffer.Descriptor.{write_fd_lem}
use tzzero_http.Net.Connection.{
  Connection, Interest, read_only, try_write, keep_rest, send_in_loop, Direct, handle_write,
  written, drained, after_drain, is_connected,
}
use tzzero_http.Net.Connection.Sending.{
  stream, gives_up, Fits, Takes, try_write-Takes, try_write-stream, keep_rest-stream,
  send_in_loop-cases, fault_unchanged, keep_rest_total,
}

module _ (bytes : Bytes) (result : SysResult ℕ) (c : Connection) where
  -- A send does not end the process while the socket is in the poller, if `write` takes no more than
  -- it is given.
  pub send_in_loop_total :
      {i : Interest}
      → Fits (length bytes) result
      → c.interest ≡ some i
      → (c' : Connection) × (send_in_loop bytes result c ≡ some c')
  unfolding send_in_loop
  send_in_loop_total f w = split (try_write bytes result c) t.in_range (t.same_interest ∙ w)
    where
      t : Takes bytes c (try_write bytes result c)
      t = try_write-Takes bytes result c f

      split :
          {i : Interest} (d : Direct)
          → d.wrote ≤ length bytes
          → d.after.interest ≡ some i
          → (c' : Connection) × ((if ltb (length bytes) d.wrote
                then none
                else if not d.fault && ltb d.wrote (length bytes)
                then keep_rest (drop d.wrote bytes) d.after
                else some d.after)
              ≡ some c')
      split d h w =
          rw (le→ltb (length bytes) d.wrote h)
            (elim (Bool-cases (not d.fault && ltb d.wrote (length bytes))) [
              | inl e ↦ rw e (keep_rest_total (drop d.wrote bytes) d.after w)
              | inr e ↦ rw e (d.after, refl)
            ])

  -- If `send_in_loop` does not end the process, the output buffer is in order, and either the message
  -- stands behind all earlier bytes, in part in the kernel and in part in the output buffer, or
  -- `write` answered EPIPE or ECONNRESET and the connection is as before. The conditions are an
  -- output buffer in order in which the message fits, and a `write` that takes no more than it is
  -- given.
  pub send_in_loop_lem :
      (c' : Connection)
      → IsValid c.output
      → c.output.write_index + length bytes < max_size
      → Fits (length bytes) result
      → send_in_loop bytes result c ≡ some c'
      → IsValid c'.output
        × ((stream c' ≡ stream c ++ bytes) ⊎ ((c' ≡ c) × (gives_up result ≡ true)))
  send_in_loop_lem c' v h f e = elim (send_in_loop-cases bytes result c c' e) [
    | inl (fault, same) ↦
        let (unchanged, up) = fault_unchanged bytes result c fault in
        (subst (λ x. IsValid x.output) (sym (same ∙ unchanged)) v, inr (same ∙ unchanged, up))
    | inr (inl (fault, all, same)) ↦ (
      subst (λ x. IsValid x) (sym (ap (λ (x : Connection). x.output) same ∙ t.same_output)) v,
      inl (
          ap stream same
          ∙ sym (append-nil (stream d.after))
          ∙ ap (λ s. stream d.after ++ s) (sym (drop-length d.wrote bytes all))
          ∙ try_write-stream bytes result c v f),
    )
    | inr (inr (fault, kept)) ↦
        let out = t.same_output in
        let valid = subst (λ x. IsValid x) (sym out) v in
        let room : d.after.output.write_index + length (drop d.wrote bytes) < max_size =
          omega (arith, length-drop d.wrote bytes, ap (λ (x : Buffer). x.write_index) out) in
        let k = keep_rest-stream (drop d.wrote bytes) d.after c' valid room kept in
        (k.1, inl (k.0 ∙ try_write-stream bytes result c v f))
  ]
    where
      d : Direct
      d = try_write bytes result c

      t : Takes bytes c d
      t = try_write-Takes bytes result c f

after_drain_lem :
    (c : Connection)
    → ((after_drain c).sent ≡ c.sent)
      × ((after_drain c).output ≡ c.output)
      × ((after_drain c).interest ≡ c.interest)
      × ((after_drain c).state ≡ c.state)
unfolding after_drain
after_drain_lem c = ground arith

drained_lem :
    (c : Connection) {i : Interest}
    → c.interest ≡ some i
    → (c' : Connection) × (drained c ≡ some c')
      × (c'.sent ≡ c.sent)
      × (c'.output ≡ c.output)
      × (c'.interest ≡ some read_only)
      × (c'.state ≡ c.state)
unfolding drained
drained_lem c w =
    let c1 = record c { interest = some read_only } in
    let a = after_drain_lem c1 in (after_drain c1, ground (arith, w), a.0, a.1, a.2, a.3)

written_lem :
    (n : ℕ) (c : Connection) {i : Interest}
    → IsValid c.output
    → c.interest ≡ some i
    → (c' : Connection) × (written (suc n) c ≡ some c') × (stream c' ≡ stream c) × IsValid c'.output
unfolding written
written_lem n c v w = elim (Bool-cases (readable_bytes c1.output == 0)) [
  | inl e ↦
      let (c', run, sent, output, x, y) = drained_lem c1 w in
      rw e (c', run, rw (sent, output) same, rw output wrote.0)
  | inr e ↦ rw e (c1, refl, same, wrote.0)
]
  where
    c1 : Connection
    c1 = record c {
      sent = c.sent ++ take (suc n) (to_string c.output);
      output = write_fd c.output (done (suc n));
    }

    wrote :
        IsValid (write_fd c.output (done (suc n)))
        × (take (suc n) (to_string c.output) ++ to_string (write_fd c.output (done (suc n)))
            ≡ to_string c.output)
        × (write_fd c.output (failed 0) ≡ c.output)
    wrote = write_fd_lem c.output (suc n) 0 v

    same : stream c1 ≡ stream c
    same =
        append_assoc c.sent (take (suc n) (to_string c.output))
          (to_string (write_fd c.output (done (suc n))))
        ∙ ap (λ s. c.sent ++ s) wrote.1

-- `handle_write` on a watched socket, with an output buffer in order and a `write` that takes no more
-- than it is given, does not end the process; what the kernel takes leaves the output buffer from its
-- front, so the bytes and their order stay the same, and the buffer stays in order.
pub handle_write_lem :
    (result : SysResult ℕ) (c : Connection) (i : Interest)
    → IsValid c.output
    → Fits (readable_bytes c.output) result
    → c.interest ≡ some i
    → (c' : Connection) × (handle_write result c ≡ some c')
      × (stream c' ≡ stream c)
      × IsValid c'.output
unfolding handle_write
handle_write_lem (done zero) c i v f w = (c, ground arith, refl, v)
handle_write_lem (done (suc n)) c i v f w = elim (Bool-cases (is_connected c.state)) [
  | inl e ↦ rw e (written_lem n c v w)
  | inr e ↦ rw e (c, refl, refl, v)
]
handle_write_lem (failed errno) c i v f w = (c, refl, refl, v)
