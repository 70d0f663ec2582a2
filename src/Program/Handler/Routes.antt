-- ===== src/Program/Handler/Routes.antt =====
-- What `http_handler` of src/main.cpp makes of a response.
use tzzero_http.Prelude.{
  ◌≡◌, refl, sym, ap, ◌∙◌, arith, inl, inr, Bool, false, ◌||◌, if◌then◌else◌, List, [], ◌∷◌, Bytes,
  codes, ◌=?◌, length, Bool-cases,
}
use tzzero_http.Http.Headers
use tzzero_http.Http.Headers.{Headers, get_header-set_header, has_header-set_header}
use tzzero_http.Http.Numbers.{decimal, lower}
use tzzero_http.Http.Request.{HttpRequest}
use tzzero_http.Http.Response
use tzzero_http.Http.Response.{
  HttpResponse, HttpStatusCode, ok, not_found, set_status_code, set_content_type,
  set_html_content_type, set_json_content_type, set_body, get_header, has_header, set_header,
}
use tzzero_http.Http.Response.Length.{content_length, get_header-set_body}
use tzzero_http.Program.Handler.{
  http_handler, create_welcome_page, status_text, hello_text, test_page, not_found_page,
}

-- Whether the path is one of these.
unfoldable pub is_among : Bytes → List Bytes → Bool
is_among path [] = false
is_among path (p ∷ ps) = path =? p || is_among path ps

abbrev pub routes : List Bytes
routes = codes "/" ∷ codes "/api/status" ∷ codes "/api/hello" ∷ codes "/test" ∷ []

-- A response with this status, a body, and a content-length header that is the body's length, that
-- closes the connection as before.
pub record IsPage (code : HttpStatusCode) (before after : HttpResponse) : Type 0 where
  pub status : after.status_code ≡ code
  pub announced : get_header after content_length ≡ decimal (length after.body)
  pub present : (after.body =? []) ≡ false
  pub closing : after.close_connection ≡ before.close_connection

close-set_body :
    (r : HttpResponse) (body : Bytes)
    → ((set_body r body).close_connection ≡ r.close_connection)
      × ((set_body r body).status_code ≡ r.status_code)
unfolding set_body Response.ensure_content_length
close-set_body r body = ground arith

has_header-type :
    (r : HttpResponse) (type : Bytes)
    → has_header r content_length ≡ false
    → has_header (set_content_type r type) content_length ≡ false
unfolding has_header set_content_type lower ◌=?◌ Headers.has_header
has_header-type r type h =
    has_header-set_header r.headers (codes "content-type") type content_length ∙ h

filled-IsPage :
    (r : HttpResponse) (code : HttpStatusCode) (type body : Bytes)
    → (body =? []) ≡ false
    → has_header r content_length ≡ false
    → IsPage code r (set_body (set_content_type (set_status_code r code) type) body)
unfolding set_status_code set_content_type has_header
filled-IsPage r code type body n h =
    let r1 = set_content_type (set_status_code r code) type in
    let absent = has_header-type (set_status_code r code) type h in
    let (length_header, same) = get_header-set_body r1 body in
    let (closes, status) = close-set_body r1 body in
    record {
      status = status;
      announced = rw (n, absent) at length_header ∙ ap (λ b. decimal (length b)) (sym same);
      present = rw same n;
      closing = closes;
    }

pub http_handler-IsPage :
    (req : HttpRequest) (r : HttpResponse)
    → has_header r content_length ≡ false
    → IsPage (if is_among req.path routes then ok else not_found) r (http_handler req r)
unfolding http_handler is_among set_html_content_type set_json_content_type test_page ◌=?◌
http_handler-IsPage req r h = elim (Bool-cases (req.path =? codes "/")) [
  | inl e ↦ rw e (filled-IsPage r ok _ create_welcome_page refl h)
  | inr e ↦ elim (Bool-cases (req.path =? codes "/api/status")) [
    | inl f ↦ rw (e, f) (filled-IsPage r ok _ status_text refl h)
    | inr f ↦ elim (Bool-cases (req.path =? codes "/api/hello")) [
      | inl g ↦ rw (e, f, g) (filled-IsPage r ok _ hello_text refl h)
      | inr g ↦ elim (Bool-cases (req.path =? codes "/test")) [
        | inl k ↦ rw (e, f, g, k) (filled-IsPage r ok _ (test_page req) refl h)
        | inr k ↦ rw (e, f, g, k) (filled-IsPage r not_found _ not_found_page refl h)
      ]
    ]
  ]
]
