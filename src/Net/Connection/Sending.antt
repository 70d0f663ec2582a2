-- ===== src/Net/Connection/Sending.antt =====
-- The two halves of a send: what `write` takes at once, and what is kept.
use tzzero_http.Prelude.{
  ◌⊎◌, ℕ, ◌+◌, ◌<◌, ◌≤◌, ◌≡◌, refl, sym, ◌∙◌, arith, inl, inr, Bool, true, false, not, ◌&&◌, ◌||◌,
  ltb, ◌==◌, if◌then◌else◌, none, some, [], ◌∷◌, ◌++◌, append_assoc, append-nil, Bytes, length,
  take, drop, take-append-drop, Bool-cases,
}
use tzzero_http.Buffer.{Buffer, SysResult, done, failed, append, readable_bytes, to_string}
use tzzero_http.Buffer.Bounds.{IsValid, max_size, append-IsValid}
use tzzero_http.Buffer.Contents.{to_string-append, length-to_string}
use tzzero_http.Net.Connection.{
  Connection, Interest, direct_write, try_write, keep_rest, send_in_loop, warn_high_water, Direct,
  e_pipe, e_conn_reset, is_connected, read_write,
}

-- All that was handed over and not given up, in order.
abbrev pub stream : Connection → Bytes
stream c = c.sent ++ to_string c.output

-- The answers of `write` on which the connection gives a message up.
unfoldable pub gives_up : SysResult ℕ → Bool
gives_up (done n) = false
gives_up (failed errno) = errno == e_pipe || errno == e_conn_reset

-- What `write` may answer: it takes no more than it is given.
abbrev pub Fits : ℕ → SysResult ℕ → Type 0
Fits len (done n) = n ≤ len
Fits len (failed errno) = Unit {0}

pub warn_high_water_lem :
    (n : ℕ) (c : Connection)
    → ((warn_high_water n c).output ≡ c.output)
      × ((warn_high_water n c).sent ≡ c.sent)
      × ((warn_high_water n c).state ≡ c.state)
      × ((warn_high_water n c).interest ≡ c.interest)
      × ((warn_high_water n c).write_shut ≡ c.write_shut)
unfolding warn_high_water
warn_high_water_lem n c = ground arith

pub empty-readable : (b : Buffer) → IsValid b → readable_bytes b ≡ 0 → to_string b ≡ []
empty-readable b v e = no_bytes (to_string b) (length-to_string b v ∙ e)
  where
    no_bytes : (s : Bytes) → length s ≡ 0 → s ≡ []
    no_bytes [] h = refl
    no_bytes (x ∷ s) h = absurd (omega arith)

-- The first half of a send takes a front part of the message, and only if nothing waits.
pub record Takes (bytes : Bytes) (c : Connection) (d : Direct) : Type 0 where
  pub taken : d.after.sent ≡ c.sent ++ take d.wrote bytes
  pub same_output : d.after.output ≡ c.output
  pub same_interest : d.after.interest ≡ c.interest
  pub same_state : d.after.state ≡ c.state
  pub same_shut : d.after.write_shut ≡ c.write_shut
  pub in_range : d.wrote ≤ length bytes

pub direct_write-Takes :
    (bytes : Bytes) (result : SysResult ℕ) (c : Connection)
    → Fits (length bytes) result
    → Takes bytes c (direct_write bytes result c)
unfolding direct_write
direct_write-Takes bytes (done n) c f = ground arith
direct_write-Takes bytes (failed errno) c f = ground (arith, append-nil c.sent)

pub try_write-Takes :
    (bytes : Bytes) (result : SysResult ℕ) (c : Connection)
    → Fits (length bytes) result
    → Takes bytes c (try_write bytes result c)
unfolding try_write
try_write-Takes bytes result c f =
    elim (Bool-cases (is_connected c.state && readable_bytes c.output == 0)) [
      | inl e ↦ rw e (direct_write-Takes bytes result c f)
      | inr e ↦ rw e (ground (arith, append-nil c.sent))
    ]

pub try_write-order :
    (bytes : Bytes) (result : SysResult ℕ) (c : Connection)
    → ((try_write bytes result c).wrote ≡ 0) ⊎ (readable_bytes c.output ≡ 0)
unfolding try_write
try_write-order bytes result c = ground arith

pub try_write-stream :
    (bytes : Bytes) (result : SysResult ℕ) (c : Connection)
    → IsValid c.output
    → Fits (length bytes) result
    → stream (try_write bytes result c).after ++ drop (try_write bytes result c).wrote bytes
      ≡ stream c ++ bytes
try_write-stream bytes result c v f =
    let d = try_write bytes result c in
    let t = try_write-Takes bytes result c f in
    rw (t.taken, t.same_output)
      (elim (try_write-order bytes result c) [
        | inl e ↦ rw (e, append-nil c.sent)
        | inr e ↦ rw (
          empty-readable c.output v e,
          append-nil (c.sent ++ take d.wrote bytes),
          append-nil c.sent,
          append_assoc c.sent (take d.wrote bytes) (drop d.wrote bytes),
          take-append-drop d.wrote bytes,
        )
      ])

-- What is kept goes to the output buffer, and the socket is watched for writing.
pub record Keeps (rest : Bytes) (c c' : Connection) : Type 0 where
  pub kept : c'.output ≡ append c.output rest
  pub same_sent : c'.sent ≡ c.sent
  pub same_state : c'.state ≡ c.state
  pub same_shut : c'.write_shut ≡ c.write_shut
  pub watched : c'.interest ≡ some read_write

pub keep_rest-Keeps :
    (rest : Bytes) (c c' : Connection) → keep_rest rest c ≡ some c' → Keeps rest c c'
unfolding keep_rest
keep_rest-Keeps rest c c' e = ground arith

pub keep_rest-stream :
    (rest : Bytes) (c c' : Connection)
    → IsValid c.output
    → c.output.write_index + length rest < max_size
    → keep_rest rest c ≡ some c'
    → (stream c' ≡ stream c ++ rest) × IsValid c'.output
keep_rest-stream rest c c' v h e =
    let k = keep_rest-Keeps rest c c' e in
    rw (k.same_sent, k.kept)
      (
        rw (to_string-append c.output rest v h)
            (sym (append_assoc c.sent (to_string c.output) rest)),
        append-IsValid c.output rest v h,
      )

-- The three ways in which `send_in_loop` ends.
pub send_in_loop-cases :
    (bytes : Bytes) (result : SysResult ℕ) (c c' : Connection)
    → send_in_loop bytes result c ≡ some c'
    → ((try_write bytes result c).fault ≡ true) × (c' ≡ (try_write bytes result c).after)
      ⊎ (((try_write bytes result c).fault ≡ false)
          × (length bytes ≤ (try_write bytes result c).wrote)
          × (c' ≡ (try_write bytes result c).after))
      ⊎ (((try_write bytes result c).fault ≡ false)
          × (keep_rest
                (drop (try_write bytes result c).wrote bytes)
                (try_write bytes result c).after
              ≡ some c'))
unfolding send_in_loop
send_in_loop-cases bytes result c c' e = split (try_write bytes result c) e
  where
    split :
        (d : Direct)
        → (if ltb (length bytes) d.wrote
            then none
            else if not d.fault && ltb d.wrote (length bytes)
            then keep_rest (drop d.wrote bytes) d.after
            else some d.after)
          ≡ some c'
        → (d.fault ≡ true) × (c' ≡ d.after)
          ⊎ ((d.fault ≡ false) × (length bytes ≤ d.wrote) × (c' ≡ d.after))
          ⊎ ((d.fault ≡ false) × (keep_rest (drop d.wrote bytes) d.after ≡ some c'))
    split d h = ground arith

pub fault_unchanged :
    (bytes : Bytes) (result : SysResult ℕ) (c : Connection)
    → (try_write bytes result c).fault ≡ true
    → ((try_write bytes result c).after ≡ c) × (gives_up result ≡ true)
unfolding try_write gives_up
fault_unchanged bytes (done n) c h = ground arith
fault_unchanged bytes (failed errno) c h = ground arith

pub keep_rest_total :
    (rest : Bytes) (c : Connection) {i : Interest}
    → c.interest ≡ some i
    → (c' : Connection) × (keep_rest rest c ≡ some c')
unfolding keep_rest
keep_rest_total rest c w =
    let c1 = warn_high_water (length rest) c in
    (
      record c1 { output = append c1.output rest; interest = some read_write },
      ground (arith, warn_high_water_lem (length rest) c, w),
    )
