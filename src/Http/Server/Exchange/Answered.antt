-- ===== src/Http/Server/Exchange/Answered.antt =====
-- What a connection makes of a request that comes on it.
use tzzero_http.Prelude.{
  ℕ, ◌+◌, ◌<◌, ◌≡◌, ◌⊎◌, refl, ap, ◌∙◌, arith, inl, inr, Bool, true, false, if◌then◌else◌, Option,
  Option-cases, none, some, List, [], ◌∷◌, ◌++◌, Bytes, length,
}
use tzzero_http.Buffer.{Buffer, SysResult, done, failed, read_fd, to_string}
use tzzero_http.Buffer.Bounds.{IsValid, max_size}
use tzzero_http.Buffer.Descriptor.{read_fd_lem}
use tzzero_http.Http.Headers.{Headers}
use tzzero_http.Http.Parser
use tzzero_http.Http.Parser.{HttpParser}
use tzzero_http.Http.Request
use tzzero_http.Http.Request.{HttpRequest, parse_complete}
use tzzero_http.Http.RoundTrip.{IsWellFormed}
use tzzero_http.Http.Server
use tzzero_http.Http.Server.{
  Config, Call, set_context, set_tcp_no_delay, set_keep_alive, Handled, prepare, respond,
  on_request, on_message, context_parser,
}
use tzzero_http.Http.Server.Replies.{on_message_answers}
use tzzero_http.Net.Connection.{
  Connection, is_open, connected, disconnecting, send, send_in_loop, shutdown, shutdown_in_loop,
  try_write, direct_write, keep_rest, modify_fd, warn_high_water,
}
use tzzero_http.Net.Connection.Delivery.{send_in_loop_lem, send_in_loop_total}
use tzzero_http.Net.Connection.Sending.{stream, gives_up, Fits}
use tzzero_http.Net.Connection.Watching.{has_entry, IsConsistent, send_in_loop-Same}
use tzzero_http.Http.Server.Exchange.{
  Session, with_connection, perform, perform_all, message_callback, serve, reply, closes,
  calls_answer,
}

shutdown_lem :
    (c : Connection)
    → c.state ≡ connected
    → (stream (shutdown true c) ≡ stream c)
      × ((shutdown true c).state ≡ disconnecting)
      × ((shutdown true c).input ≡ c.input)
unfolding shutdown shutdown_in_loop
shutdown_lem c e = ground (arith, e)

send_in_loop-input :
    (bytes : Bytes) (result : SysResult ℕ) (c c' : Connection)
    → send_in_loop bytes result c ≡ some c'
    → c'.input ≡ c.input
unfolding send_in_loop try_write direct_write keep_rest modify_fd warn_high_water
send_in_loop-input bytes (done n) c c' h = ground arith
send_in_loop-input bytes (failed errno) c c' h = ground arith

abbrev after : Bool → Connection → Connection
after true c = shutdown true c
after false c = c

after_lem :
    (close : Bool) (c : Connection)
    → c.state ≡ connected
    → (stream (after close c) ≡ stream c)
      × ((after close c).state ≡ (if close then disconnecting else connected))
      × ((after close c).input ≡ c.input)
after_lem true c e = shutdown_lem c e
after_lem false c e = (refl, e, refl)

finish :
    (write : Bytes → SysResult ℕ) (close : Bool) (s : Session)
    → perform_all write (if close then Server.shutdown ∷ [] else []) s
      ≡ some (record s { connection = after close s.connection })
unfolding perform_all perform
finish write true s = refl
finish write false s = refl

sends_text :
    (write : Bytes → SysResult ℕ) (text : Bytes) (s : Session) (c : Connection)
    → s.connection.state ≡ connected
    → send_in_loop text (write text) s.connection ≡ some c
    → perform write (Server.send text) s ≡ some (record s { connection = c })
unfolding perform send
sends_text write text s c e h = ap (with_connection s) (now s.connection e ∙ h)
  where
    now :
        (d : Connection)
        → d.state ≡ connected
        → send true text (write text) d ≡ send_in_loop text (write text) d
    now d e = rw (e, send) refl

perform_cons :
    (write : Bytes → SysResult ℕ) (c : Call) (cs : List Call) (s t : Session)
    → perform write c s ≡ some t
    → perform_all write (c ∷ cs) s ≡ perform_all write cs t
unfolding perform_all
perform_cons write c cs s t h = rw (h, perform_all) refl

-- A text and, if asked for, a shutdown, on a connection that is connected.
module _ (write : Bytes → SysResult ℕ) (text : Bytes) (close : Bool) (s : Session) where
  sent_and_shut :
      s.connection.state ≡ connected
      → has_entry s.connection.interest ≡ true
      → IsValid s.connection.output
      → s.connection.output.write_index + length text < max_size
      → Fits (length text) (write text)
      → (c : Connection) × (perform_all write
            (Server.send text ∷ (if close then Server.shutdown ∷ [] else []))
            s
          ≡ some (record s { connection = c }))
        × (c.input ≡ s.connection.input)
        × (c.state ≡ (if close then disconnecting else connected))
        × ((stream c ≡ stream s.connection ++ text) ⊎ (gives_up (write text) ≡ true))
  sent_and_shut e w v room fits = elim (Option-cases s.connection.interest) [
    | inl q ↦ absurd (cc)
    | inr (i, q) ↦
        let (c, done_) = send_in_loop_total text (write text) s.connection fits q in
        let same = send_in_loop-Same text (write text) s.connection c done_ in
        let kept = send_in_loop-input text (write text) s.connection c done_ in
        let (valid, streamed) =
          send_in_loop_lem text (write text) s.connection c v room fits done_ in
        let (streams, state, input) = after_lem close c (same.same_state ∙ e) in
        (
          after close c,
          perform_cons write (Server.send text) (if close then Server.shutdown ∷ [] else []) s
                (record s { connection = c }) (sends_text write text s c e done_)
              ∙ finish write close (record s { connection = c }),
          input ∙ kept,
          state,
          elim streamed [ inl x ↦ inl (streams ∙ x) | inr x ↦ inr x.1 ],
        )
  ]

module _ (walk : Headers → Headers) (date : Bytes) (config : Config)
    (write : Bytes → SysResult ℕ) where
  on_message-context :
      (context : Option HttpParser) (b : Buffer)
      → context_parser context ≡ Parser.fresh
      → on_message walk date config context b ≡ on_message walk date config none b
  unfolding on_message
  on_message-context context b e = rw (e, on_message) refl

  message_callback_lem :
      (s t : Session) (h : Handled) (cs : List Call)
      → on_message walk date config s.context s.connection.input ≡ some h
      → h.calls ≡ cs
      → perform_all write cs
          (record s { connection = record s.connection { input = h.buffer }; context = h.context })
        ≡ some t
      → message_callback walk date config write s ≡ some t
  unfolding message_callback
  message_callback_lem s t h cs e c p = rw (e, message_callback) (rw c p)

  -- Bytes come that complete a well-formed request in the input buffer of a consistent connection that
  -- is connected, and whose parser is as new: the callback answers it. The bytes behind the request stay
  -- in the buffer and the parser is as new; what was sent or waits to be sent is longer by the text of
  -- the response, unless `write` answers EPIPE or ECONNRESET; and the connection is being shut down
  -- exactly if the response closes it. The conditions are buffers in order in which the bytes and the
  -- response fit, and a `write` that takes no more than it is given.
  pub serve_lem :
      (s : Session) (x : ℕ) (bytes : Bytes) (req : HttpRequest) (rest : Bytes)
      → IsConsistent s.connection
      → s.connection.state ≡ connected
      → context_parser s.context ≡ Parser.fresh
      → IsValid s.connection.input
      → length s.connection.input.store + length (x ∷ bytes) < max_size
      → to_string s.connection.input ++ x ∷ bytes ≡ Request.to_string req ++ rest
      → IsWellFormed req
      → IsValid s.connection.output
      → s.connection.output.write_index + length (reply walk date config req) < max_size
      → Fits (length (reply walk date config req)) (write (reply walk date config req))
      → (s' : Session) × (serve walk date config write (done (x ∷ bytes)) s ≡ some s')
        × (to_string s'.connection.input ≡ rest)
        × (s'.context ≡ some Parser.fresh)
        × (s'.connection.state ≡ (if closes walk date config req then disconnecting else connected))
        × ((stream s'.connection ≡ stream s.connection ++ reply walk date config req)
            ⊎ (gives_up (write (reply walk date config req)) ≡ true))
  unfolding serve
  serve_lem s x bytes req rest v e p vi room t w vo room' fits =
      let b = read_fd s.connection.input (done (x ∷ bytes)) in
      let (valid, content, unused) = read_fd_lem s.connection.input (x ∷ bytes) 0 vi room in
      let (h, ran, calls, left, fresh_parser) =
        on_message_answers walk date config req rest b valid (content ∙ t) w in
      let c = record s.connection { input = h.buffer } in
      let (c', performed, input, state, streamed) =
        sent_and_shut write (reply walk date config req) (closes walk date config req)
          (record { connection = c; context = h.context }) e (v.watched ∙ ap is_open e) vo room'
          fits in
      (
        record { connection = c'; context = h.context },
        message_callback_lem (record s { connection = record s.connection { input = b } })
            (record { connection = c'; context = h.context }) h _
            (on_message-context s.context b p ∙ ran) (calls ∙ calls_answer walk date config req)
            performed,
        ap to_string input ∙ left,
        fresh_parser,
        state,
        streamed,
      )
