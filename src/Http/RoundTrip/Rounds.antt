-- ===== src/Http/RoundTrip/Rounds.antt =====
-- The rounds of the parser over a printed request.
use tzzero_http.Prelude.{
  ℕ, suc, ◌+◌, ◌≡◌, refl, ap, ◌∙◌, arith, true, ◌||◌, some, none, [], ◌∷◌, ◌++◌, Bytes,
  append_assoc, append-nil, length, drop, All, ltb, take-append_all, drop-append_all, length-append,
  le→ltb, ◌=?◌,
}
use tzzero_http.Buffer.{search_crlf}
use tzzero_http.Buffer.Search.{search_crlf-append}
use tzzero_http.Http.Headers
use tzzero_http.Http.Headers.{Headers}
use tzzero_http.Http.Request.{
  HttpRequest, parse_headers, parse_body, parse_complete, header_lines, add_header,
  get_content_length,
}
use tzzero_http.Http.Parser.{
  HttpParser, Progress, again, complete, on_headers_line, on_header_line, on_body,
}
use tzzero_http.Http.Parser.Rounds.{loop_again, loop_stop}
use tzzero_http.Http.Parser.Stream
use tzzero_http.Http.Parser.Stream.{Outcome, outcome, round, parse_loop}
use tzzero_http.Http.RoundTrip.RequestLine.{Lacks}
use tzzero_http.Http.RoundTrip.HeaderLine.{IsPrintable, header_line-print, Lacks-header_line}

-- With some fuel the loop returns this.
abbrev pub Runs : Bytes → HttpParser → HttpRequest → Outcome → Type 0
Runs s p r o = (fuel : ℕ) × (parse_loop fuel s p r ≡ some o)

abbrev pub eol : Bytes → Bytes
eol s = b'\r' ∷ b'\n' ∷ s

search_crlf-none : (s : Bytes) → Lacks b'\r' s → search_crlf s ≡ none
unfolding search_crlf
search_crlf-none [] h = refl
search_crlf-none (c ∷ []) h = refl
search_crlf-none (c ∷ d ∷ s) h = ground (arith, search_crlf-none (d ∷ s))

drop-line : (line rest : Bytes) → drop (length line + 2) (line ++ eol rest) ≡ rest
drop-line [] rest = refl
drop-line (c ∷ line) rest = rw (plus (length line)) (drop-line line rest)
  where
    plus : (n : ℕ) → suc n + 2 ≡ suc (n + 2)
    plus n = omega arith

pub line_round-eol :
    (handle : Bytes → HttpParser → HttpRequest → Progress) (line rest : Bytes) (p : HttpParser)
    (r : HttpRequest)
    → Lacks b'\r' line
    → Stream.line_round handle (line ++ eol rest) p r ≡ (handle line p r, rest)
unfolding Stream.line_round
line_round-eol handle line rest p r h = rw (
  search_crlf-append line rest (search_crlf-none line h),
  take-append_all line (eol rest),
  drop-line line rest,
  Stream.line_round,
)

pub Runs-again :
    (s s' : Bytes) (p : HttpParser) (r : HttpRequest) (g : Progress) (o : Outcome)
    → round r.parse_state s p r ≡ (g, s')
    → g.verdict ≡ again
    → Runs s' g.parser g.request o
    → Runs s p r o
Runs-again s s' p r g o e v run = (
  suc run.0,
  loop_again run.0 s p r (ap (λ x. x.0.verdict) e ∙ v)
      ∙ ap (λ x. parse_loop run.0 x.1 x.0.parser x.0.request) e
      ∙ run.1,
)

pub Runs-complete :
    (s s' : Bytes) (p : HttpParser) (r : HttpRequest) (g : Progress)
    → round r.parse_state s p r ≡ (g, s')
    → g.verdict ≡ complete
    → Runs s p r (outcome g s')
Runs-complete s s' p r g e v =
    (1, loop_stop 0 s p r (λ n. cc (ap (λ x. x.0.verdict) e)) ∙ ap (λ x. some (outcome x.0 x.1)) e)

abbrev pub AllPrintable : Headers → Type 0
AllPrintable h = All (λ x. IsPrintable x.0 x.1) h

abbrev pub reading : HttpRequest → Headers → HttpRequest
reading r h = record r { headers = h; parse_state = parse_headers }

on_headers_line-print :
    (field value : Bytes) (p : HttpParser) (r : HttpRequest) (acc h : Headers)
    → IsPrintable field value
    → Headers.IsValid (acc ++ (field, value) ∷ h)
    → on_headers_line (field ++ b':' ∷ b' ' ∷ value) p (reading r acc)
      ≡ record { verdict = again; parser = p; request = reading r (acc ++ (field, value) ∷ []) }
unfolding on_headers_line on_header_line add_header ◌=?◌
on_headers_line-print [] value p r acc h ok valid = absurd (ok.named refl)
on_headers_line-print (c ∷ field) value p r acc h ok valid =
    rw (header_line-print (c ∷ field) value (reading r acc) ok)
      (rw (Headers.add_header-new acc h (c ∷ field) value valid))

pub regroup :
    (field value : Bytes) (h : Headers) (tail : Bytes)
    → header_lines ((field, value) ∷ h) ++ tail
      ≡ (field ++ b':' ∷ b' ' ∷ value) ++ eol (header_lines h ++ tail)
unfolding header_lines
regroup field value h tail = simp append_assoc

pub Runs-headers :
    (h acc : Headers) (tail : Bytes) (p : HttpParser) (r : HttpRequest) (o : Outcome)
    → AllPrintable h
    → Headers.IsValid (acc ++ h)
    → Runs tail p (reading r (acc ++ h)) o
    → Runs (header_lines h ++ tail) p (reading r acc) o
Runs-headers [] acc tail p r o ok valid run = unfold header_lines in rw (append-nil acc) at run
Runs-headers ((field, value) ∷ h) acc tail p r o ok valid run =
    let acc' = acc ++ (field, value) ∷ [] in
    let same = append_assoc acc ((field, value) ∷ []) h in
    let later = Runs-headers h acc' tail p r o ok.1 (rw same valid) (rw same run) in
    rw (regroup field value h tail) (
      Runs-again ((field ++ b':' ∷ b' ' ∷ value) ++ eol (header_lines h ++ tail))
        (header_lines h ++ tail) p (reading r acc)
        (record { verdict = again; parser = p; request = reading r acc' }) o
        (unfold round in
          line_round-eol on_headers_line (field ++ b':' ∷ b' ' ∷ value) (header_lines h ++ tail) p
            (reading r acc) (Lacks-header_line field value ok.0)
          ∙ ap (λ x. (x, header_lines h ++ tail))
              (on_headers_line-print field value p r acc h ok.0 valid))
        refl later)

-- The request when its headers are read, and when its body is.
abbrev pub headed : HttpRequest → HttpRequest
headed r = record r { body = []; parse_state = parse_headers }

abbrev pub finished : HttpRequest → Bytes → HttpRequest
finished r body = record r { body = body; parse_state = parse_complete }

abbrev pub counted : HttpParser → ℕ → HttpParser
counted p n = record p { content_length = n; expect_body = ltb 0 n || p.expect_body }

empty_line-none :
    (p : HttpParser) (r : HttpRequest)
    → get_content_length r ≡ 0
    → on_headers_line [] p r ≡ record {
      verdict = complete;
      parser = counted p 0;
      request = record r { parse_state = parse_complete };
    }
unfolding on_headers_line ◌=?◌
empty_line-none p r e = ground (arith, e)

empty_line-some :
    (n : ℕ) (p : HttpParser) (r : HttpRequest)
    → get_content_length r ≡ suc n
    → on_headers_line [] p r ≡ record {
      verdict = again;
      parser = counted p (suc n);
      request = record r { parse_state = parse_body };
    }
unfolding on_headers_line ◌=?◌
empty_line-some n p r e = ground (arith, e)

body_round-all :
    (body rest : Bytes) (p : HttpParser) (r : HttpRequest)
    → p.content_length ≡ length body
    → Stream.body_round (body ++ rest) p r ≡ (on_body body p r, rest)
unfolding Stream.body_round
body_round-all body rest p r e =
    rw (e, le→ltb (length (body ++ rest)) (length body) (omega (arith, length-append body rest)))
      (rw (take-append_all body rest, drop-append_all body rest))

-- The empty line and the body.
pub Runs-body :
    (body rest : Bytes) (p : HttpParser) (r : HttpRequest)
    → get_content_length (headed r) ≡ length body
    → Runs (eol (body ++ rest)) p (headed r) (record {
      returned = true;
      parser = counted p (length body);
      request = finished r body;
      rest = rest;
    })
unfolding round on_body
Runs-body [] rest p r e =
    Runs-complete (eol rest) rest p (headed r)
      (record { verdict = complete; parser = counted p 0; request = finished r [] })
      (line_round-eol on_headers_line [] rest p (headed r) tt
        ∙ ap (λ x. (x, rest)) (empty_line-none p (headed r) e))
      refl
Runs-body (c ∷ body) rest p r e =
    let p' = counted p (suc (length body)) in
    let r' = record (headed r) { parse_state = parse_body } in
    Runs-again (eol ((c ∷ body) ++ rest)) ((c ∷ body) ++ rest) p (headed r)
      (record { verdict = again; parser = p'; request = r' }) _
      (line_round-eol on_headers_line [] ((c ∷ body) ++ rest) p (headed r) tt
        ∙ ap (λ x. (x, (c ∷ body) ++ rest)) (empty_line-some (length body) p (headed r) e))
      refl
      (Runs-complete ((c ∷ body) ++ rest) rest p' r'
        (record { verdict = complete; parser = p'; request = finished r (c ∷ body) })
        (body_round-all (c ∷ body) rest p' r' refl) refl)
