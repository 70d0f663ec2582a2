-- ===== src/Http/Server/Pieces.antt =====
-- `on_message` of src/http/http_server.cpp on a request that arrives in two pieces. The parser keeps
-- its place in the `HttpRequest`, and the server makes a new one at each call.
use tzzero_http.Prelude.{
  ◌≡◌, ◌≢◌, refl, sym, ap, ◌∙◌, arith, true, false, Option, none, some, [], ◌∷◌, ◌++◌, Bytes, ◌=?◌,
}
use tzzero_http.Buffer.{Buffer, to_string, search_crlf}
use tzzero_http.Buffer.Bounds.{IsValid}
use tzzero_http.Http.Headers.{Headers}
use tzzero_http.Http.Parser
use tzzero_http.Http.Parser.{
  HttpParser, Progress, parse_request, again, broken, incomplete, on_request_line, stay, fail,
}
use tzzero_http.Http.Parser.Chunks.{request_loop}
use tzzero_http.Http.Parser.Refine.{parse_request_refines, view}
use tzzero_http.Http.Parser.Rounds.{loop_stop}
use tzzero_http.Http.Parser.Stream
use tzzero_http.Http.Parser.Stream.{Outcome, round, outcome}
use tzzero_http.Http.Request
use tzzero_http.Http.Request.{HttpRequest, header_lines}
use tzzero_http.Http.RoundTrip.{IsWellFormed, first_line, after_line, first_round, started}
use tzzero_http.Http.RoundTrip.HeaderLine.{Lacks-header_line}
use tzzero_http.Http.RoundTrip.RequestLine.{IsWord, Lacks, request_line-header}
use tzzero_http.Http.RoundTrip.Rounds.{Runs, Runs-again, reading, eol, line_round-eol, regroup}
use tzzero_http.Http.Parser.Lines.{request_line}
use tzzero_http.Http.Server.{Config, Handled, shutdown, on_message, after_parse, context_parser}

-- A round that does not go on is the last one.
Runs-stop :
    (s s' : Bytes) (p : HttpParser) (r : HttpRequest) (g : Progress)
    → round r.parse_state s p r ≡ (g, s')
    → g.verdict ≢ again
    → Runs s p r (outcome g s')
Runs-stop s s' p r g e n = (
  1,
  loop_stop 0 s p r (λ q. n (sym (ap (λ x. x.0.verdict) e) ∙ q))
      ∙ ap (λ x. some (outcome x.0 x.1)) e,
)

-- After the request line alone the parser waits, and has put the line into the request.
first_piece :
    (req : HttpRequest)
    → IsWellFormed req
    → Stream.parse_request (first_line req ++ eol []) Parser.fresh Request.fresh
      ≡ some (record {
        returned = false;
        parser = Parser.fresh;
        request = reading (started req) [];
        rest = [];
      })
unfolding round Stream.line_round search_crlf
first_piece req w =
    let r' = reading (started req) [] in
    let run =
      Runs-again (first_line req ++ eol []) [] Parser.fresh Request.fresh
        (record { verdict = again; parser = Parser.fresh; request = r' }) _ (first_round req [] w)
        refl (Runs-stop [] [] Parser.fresh r' (stay incomplete Parser.fresh r') refl (λ e. cc)) in
    request_loop run.0 _ _ _ run.1

-- What a new request makes of a line that is no request line.
bad_line :
    (line rest : Bytes)
    → Lacks b'\r' line
    → (request_line line Request.fresh).0 ≡ false
    → (o : Outcome) × (Stream.parse_request (line ++ eol rest) Parser.fresh Request.fresh ≡ some o)
      × (o.returned ≡ false)
      × (o.parser.has_error ≡ true)
unfolding round on_request_line
bad_line line rest h e =
    let g = fail Parser.fresh (request_line line Request.fresh).1 in
    let run =
      Runs-stop (line ++ eol rest) rest Parser.fresh Request.fresh g
        (line_round-eol on_request_line line rest Parser.fresh Request.fresh h
          ∙ ap (λ x. (x, rest)) (ground (arith, e)))
        (λ q. cc) in
    (outcome g rest, request_loop run.0 _ _ _ run.1, refl, refl)

-- The first header's name has no space in it.
abbrev pub StartsWithWord : Headers → Type 0
StartsWithWord [] = Unit {0}
StartsWithWord ((field, value) ∷ h) = IsWord field

second_piece :
    (req : HttpRequest) (rest : Bytes)
    → IsWellFormed req
    → StartsWithWord req.headers
    → (o : Outcome) × (Stream.parse_request (after_line req rest) Parser.fresh Request.fresh
        ≡ some o)
      × (o.returned ≡ false)
      × (o.parser.has_error ≡ true)
unfolding ◌=?◌
second_piece req rest w s = by_headers req.headers w.headers_printable s
  where
    by_headers :
        (h : Headers)
        → tzzero_http.Http.RoundTrip.Rounds.AllPrintable h
        → StartsWithWord h
        → (o : Outcome) × (Stream.parse_request
              (header_lines h ++ eol (req.body ++ rest))
              Parser.fresh
              Request.fresh
            ≡ some o)
          × (o.returned ≡ false)
          × (o.parser.has_error ≡ true)
    by_headers [] ok st =
        unfold header_lines in bad_line [] (req.body ++ rest) tt (unfold request_line in refl)
    by_headers ((field, value) ∷ h) ok st = rw (regroup field value h (eol (req.body ++ rest))) (
        bad_line (field ++ b':' ∷ b' ' ∷ value) (header_lines h ++ eol (req.body ++ rest))
          (Lacks-header_line field value ok.0) (request_line-header field value Request.fresh st))

module _ (walk : Headers → Headers) (date : Bytes) (config : Config) where
  after_parse_calls :
      (o : Parser.Outcome)
      → o.returned ≡ false
      → ((o.parser.has_error ≡ false → (after_parse walk date config o).calls ≡ [])
          × (o.parser.has_error ≡ true → (after_parse walk date config o).calls ≡ shutdown ∷ []))
        × ((after_parse walk date config o).buffer ≡ o.rest)
        × ((after_parse walk date config o).context ≡ some o.parser)
  unfolding after_parse
  after_parse_calls o e = ((ground arith, ground arith), ground arith, ground arith)

  message :
      (context : Option HttpParser) (p : HttpParser) (b : Buffer) (o : Outcome)
      → context_parser context ≡ p
      → IsValid b
      → Stream.parse_request (to_string b) p Request.fresh ≡ some o
      → (q : Parser.Outcome) × (on_message walk date config context b
          ≡ some (after_parse walk date config q))
        × (view q ≡ o)
  unfolding on_message
  message context p b o c v e =
      let (q, run, valid, same) =
        parse_request_refines b (context_parser context) Request.fresh v in
      (
        q,
        rw (run, on_message),
        some_injective
            (sym same ∙ ap (λ x. Stream.parse_request (to_string b) x Request.fresh) c ∙ e),
      )
    where
      some_injective : {x y : Outcome} → some x ≡ some y → x ≡ y
      some_injective h = cc

  -- On a connection that has no parser yet, a well-formed request that arrives in two buffers in
  -- order, cut behind its request line, is not answered, if its first header's name, if it has a
  -- header, has no space: the first message makes no call and empties the buffer, and the second,
  -- whose buffer holds the rest of the request and maybe bytes behind it, shuts the connection down.
  pub on_message_pieces :
      (req : HttpRequest) (rest : Bytes) (b1 b2 : Buffer)
      → IsValid b1
      → IsValid b2
      → IsWellFormed req
      → StartsWithWord req.headers
      → to_string b1 ≡ first_line req ++ eol []
      → to_string b2 ≡ after_line req rest
      → (h1 h2 : Handled) × (on_message walk date config none b1 ≡ some h1)
        × (h1.calls ≡ [])
        × (to_string h1.buffer ≡ [])
        × (on_message walk date config h1.context b2 ≡ some h2)
        × (h2.calls ≡ shutdown ∷ [])
  on_message_pieces req rest b1 b2 v1 v2 w st e1 e2 =
      let parse = λ (s : Bytes). Stream.parse_request s Parser.fresh Request.fresh in
      let (q1, run1, seen1) =
        message none Parser.fresh b1 _ refl v1 (ap parse e1 ∙ first_piece req w) in
      let fresh1 = ap (λ (x : Outcome). x.parser) seen1 in
      let calls1 = after_parse_calls q1 (ap (λ (x : Outcome). x.returned) seen1) in
      let (o2, parse2, returned2, error2) = second_piece req rest w st in
      let (q2, run2, seen2) =
        message (after_parse walk date config q1).context Parser.fresh b2 o2
          (ap context_parser calls1.2 ∙ fresh1) v2 (ap parse e2 ∙ parse2) in
      let calls2 = after_parse_calls q2 (ap (λ (x : Outcome). x.returned) seen2 ∙ returned2) in
      (
        after_parse walk date config q1,
        after_parse walk date config q2,
        run1,
        calls1.0.0 (ap (λ (x : HttpParser). x.has_error) fresh1),
        ap to_string calls1.1 ∙ ap (λ (x : Outcome). x.rest) seen1,
        run2,
        calls2.0.1 (ap (λ (x : Outcome). x.parser.has_error) seen2 ∙ error2),
      )
