-- ===== src/Program/Answers.antt =====
-- What the program of src/main.cpp answers to a request.
use tzzero_http.Prelude.{
  ℕ, ◌≡◌, refl, ap, ◌∙◌, inl, inr, Bool, true, false, not, ◌||◌, ltb, if◌then◌else◌, Option, none,
  some, Bool-cases, List, [], ◌∷◌, ◌++◌, Bytes, codes, ◌=?◌, length,
}
use tzzero_http.Buffer.{Buffer, to_string}
use tzzero_http.Buffer.Bounds.{IsValid}
use tzzero_http.Http.Headers
use tzzero_http.Http.Headers.{Headers, has_header-set_header}
use tzzero_http.Http.Numbers
use tzzero_http.Http.Numbers.{lower, decimal}
use tzzero_http.Http.Request
use tzzero_http.Http.Request.{HttpRequest, keep_alive, parse_complete}
use tzzero_http.Http.Response.{
  HttpResponse, fresh, ok, not_found, has_header, get_header, set_header, set_close_connection,
  append_to_buffer,
}
use tzzero_http.Http.Response.Length.{content_length}
use tzzero_http.Http.RoundTrip.{IsWellFormed}
use tzzero_http.Http.Server.{
  Config, Call, send, shutdown, Handled, prepare, respond, on_request, on_message,
}
use tzzero_http.Http.Server.Lifecycle.{HttpServer}
use tzzero_http.Http.Server.Replies.{on_message_answers}
use tzzero_http.Program.Handler.{http_handler}
use tzzero_http.Program.Handler.Routes.{is_among, routes, IsPage, http_handler-IsPage}
use tzzero_http.Program.Options.{ℤ}
use tzzero_http.Program.Startup.{serves, main}
use tzzero_http.Program.Startup.Serving.{main_config, main-config}
use tzzero_http.Utils.Logger.{Logger}

-- No content-length header, and whether the connection is to be closed.
record IsBare (close : Bool) (r : HttpResponse) : Type 0 where
  absent : has_header r content_length ≡ false
  closing : r.close_connection ≡ close

set_header-IsBare :
    (close : Bool) (r : HttpResponse) (field value : Bytes)
    → (lower field =? lower content_length) ≡ false
    → IsBare close r
    → IsBare close (set_header r field value)
unfolding has_header set_header
set_header-IsBare close r field value d b = record {
  absent = has_header-set_header r.headers field value content_length ∙ rw d b.absent;
  closing = b.closing;
}

base-IsBare :
    (close : Bool)
    → IsBare close
        (set_close_connection (set_header fresh (codes "Server") (codes "TZZeroHTTP/1.0")) close)
unfolding set_close_connection set_header has_header Headers.has_header lower Headers.set_header
    Headers.assign Headers.find ◌=?◌
base-IsBare close = record { absent = refl; closing = refl }

close_header : (lower (codes "Connection") =? lower content_length) ≡ false
unfolding lower ◌=?◌ Numbers.to_lower
close_header = refl

alive_header : (lower (codes "Keep-Alive") =? lower content_length) ≡ false
unfolding lower ◌=?◌ Numbers.to_lower
alive_header = refl

prepare-IsBare :
    (config : Config) (req : HttpRequest)
    → IsBare (not (keep_alive req) || not config.keep_alive_enabled) (prepare config req)
unfolding prepare
prepare-IsBare config req =
    let c = not (keep_alive req) || not config.keep_alive_enabled in
    elim (Bool-cases c) [
      | inl e ↦ rw e (set_header-IsBare true _ _ _ close_header (base-IsBare true))
      | inr e ↦
          let alive =
            set_header-IsBare false _ (codes "Connection") (codes "keep-alive") close_header
              (base-IsBare false) in
          elim (Bool-cases (ltb 0 config.keep_alive_timeout)) [
            | inl f ↦ rw (e, f) (set_header-IsBare false _ _ _ alive_header alive)
            | inr f ↦ rw (e, f) alive
          ]
    ]

-- The request as the parser hands it over.
abbrev parsed : HttpRequest → HttpRequest
parsed req = record req { parse_state = parse_complete; stream_id = 0 }

-- What the prepared response becomes.
abbrev page : HttpRequest → HttpResponse
page req = http_handler (parsed req) (prepare (main_config true) (parsed req))

page-IsPage :
    (req : HttpRequest)
    → IsPage
        (if is_among req.path routes then ok else not_found)
        (prepare (main_config true) (parsed req))
        (page req)
page-IsPage req =
    http_handler-IsPage (parsed req) (prepare (main_config true) (parsed req))
      (prepare-IsBare (main_config true) (parsed req)).absent

closes_page : (req : HttpRequest) → (page req).close_connection ≡ not (keep_alive req)
unfolding keep_alive
closes_page req =
    (page-IsPage req).closing
    ∙ (prepare-IsBare (main_config true) (parsed req)).closing
    ∙ or_false (not (keep_alive req))
  where
    or_false : (b : Bool) → (b || false) ≡ b
    or_false true = refl
    or_false false = refl

if_not : (b : Bool) (x y : List Call) → (if not b then x else y) ≡ (if b then y else x)
if_not true x y = refl
if_not false x y = refl

calls_page :
    (walk : Headers → Headers) (date : Bytes) (req : HttpRequest)
    → on_request walk date (main_config true) (parsed req)
      ≡ send (append_to_buffer walk date (page req) [])
        ∷ (if keep_alive req then [] else shutdown ∷ [])
unfolding on_request respond
calls_page walk date req =
    let text = send (append_to_buffer walk date (page req) []) in
    ap (λ c. text ∷ (if c then shutdown ∷ [] else [])) (closes_page req)
    ∙ ap (λ cs. text ∷ cs) (if_not (keep_alive req) (shutdown ∷ []) [])

-- However the program of `main` gets to its event loop, its server answers a well-formed request that
-- is there as a whole, in a buffer whose indices are in order and on a connection without a parser, by
-- one response: the status is 200 if the path is one of the four routes and 404 if it is not, there is
-- a body and the content-length header is the body's length, the connection is shut down behind it
-- exactly if the request does not ask to keep it, and the bytes behind the request stay in the buffer.
pub main_answers :
    (stoi : Bytes → Option ℤ) (cpus : ℕ) (opened : Bool) (idle : Option ℕ) (loop_of : ℕ → ℕ)
    (binds : Bytes → ℕ → Bool) (l l' : Logger) (os : List (ℕ × Bytes)) (server : HttpServer)
    (walk : Headers → Headers) (date : Bytes) (req : HttpRequest) (rest : Bytes) (b : Buffer)
    → main stoi cpus opened idle loop_of binds l os ≡ serves l' server
    → IsValid b
    → to_string b ≡ Request.to_string req ++ rest
    → IsWellFormed req
    → (h : Handled) × (r : HttpResponse) × (on_message walk date server.config none b ≡ some h)
      × (h.calls
          ≡ send (append_to_buffer walk date r []) ∷ (if keep_alive req then [] else shutdown ∷ []))
      × (r.status_code ≡ (if is_among req.path routes then ok else not_found))
      × (get_header r content_length ≡ decimal (length r.body))
      × ((r.body =? []) ≡ false)
      × (to_string h.buffer ≡ rest)
main_answers stoi cpus opened idle loop_of binds l l' os server walk date req rest b e v t w =
    let config = main-config stoi cpus opened idle loop_of l os binds l' server e in
    let (h, run, calls, left, fresh_parser) =
      on_message_answers walk date (main_config true) req rest b v t w in
    let p = page-IsPage req in
    (
      h,
      page req,
      ap (λ c. on_message walk date c none b) config ∙ run,
      calls ∙ calls_page walk date req,
      p.status,
      p.announced,
      p.present,
      left,
    )
