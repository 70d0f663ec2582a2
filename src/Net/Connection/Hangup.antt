-- ===== src/Net/Connection/Hangup.antt =====
-- One round of the poller that reports both the end of the input and a hang-up. `EpollPoller` turns
-- EPOLLIN into a read event and EPOLLHUP into an error event, and the callback of
-- src/net/tcp_connection.cpp handles the one after the other.
use tzzero_http.Prelude.{
  ℕ, ◌≡◌, refl, arith, Bool, true, Option, none, some, [], inl, inr, Option-cases, Bool-cases,
}
use tzzero_http.Buffer.{SysResult, done, failed}
use tzzero_http.Net.Connection.{
  Connection, disconnected, on_events, handle_read, handle_error, handle_close, handle_write,
}

closed : (c d : Connection) → handle_close c ≡ some d → d.state ≡ disconnected
unfolding handle_close
closed c d e = ground arith

closed_idle :
    (d : Connection) (wrote : SysResult ℕ) → d.state ≡ disconnected → handle_write wrote d ≡ some d
unfolding handle_write
closed_idle d (done n) e = ground arith
closed_idle d (failed errno) e = refl

closed_aborts : (d : Connection) → d.state ≡ disconnected → handle_error d ≡ none
unfolding handle_error
closed_aborts d e = ground arith

read_eof :
    (callback : Connection → Option Connection) (c : Connection)
    → handle_read callback (done []) c ≡ handle_close c
unfolding handle_read
read_eof callback c = unfold handle_close in refl

-- Whatever the message callback, and whether the socket is writable too: if the read finds the end
-- of the input and the error event is set, the process ends.
pub on_events_hangup :
    (callback : Connection → Option Connection) (writable : Bool) (wrote : SysResult ℕ)
    (c : Connection)
    → on_events callback true writable true (done []) wrote c ≡ none
unfolding on_events
on_events_hangup callback writable wrote c = elim (Option-cases (handle_close c)) [
  | inl e ↦ rw (read_eof callback c, e)
  | inr (d, e) ↦
      rw (read_eof callback c, e)
        (elim (Bool-cases writable) [
          | inl w ↦ rw (w, closed_idle d wrote (closed c d e)) (closed_aborts d (closed c d e))
          | inr w ↦ rw w (closed_aborts d (closed c d e))
        ])
]
