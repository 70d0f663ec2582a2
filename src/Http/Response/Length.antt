-- ===== src/Http/Response/Length.antt =====
-- The content-length header of a response and the length of its body.
use tzzero_http.Prelude.{
  ◌+◌, ◌<◌, ◌^◌, ◌≡◌, ◌≢◌, refl, ap, ◌∙◌, arith, inl, inr, Bool, true, false, not, ◌||◌, ◌&&◌,
  if◌then◌else◌, some, [], ◌++◌, Bytes, codes, ◌=?◌, =?_iff, =?_refl, length, length-append,
  Bool-cases,
}
use tzzero_http.Http.Headers
use tzzero_http.Http.Headers.{Headers, get_header-set_header, has_header-set_header}
use tzzero_http.Http.Numbers.{decimal, stoull, stoull-decimal, lower}
use tzzero_http.Http.Response.{
  HttpResponse, set_body, append_body, ensure_content_length, get_header, has_header,
}

abbrev pub content_length : Bytes
content_length = codes "content-length"

module _ (h : Headers) (field value : Bytes) where
  get_header-set_self : Headers.get_header (Headers.set_header h field value) field ≡ value
  get_header-set_self = rw (get_header-set_header h field value field, =?_refl (lower field))

  has_header-set_self : Headers.has_header (Headers.set_header h field value) field ≡ true
  has_header-set_self = rw (has_header-set_header h field value field, =?_refl (lower field))

-- After `set_body` the content-length header is the length of the new body, unless the body is
-- empty or the header was there: then it is what it was.
pub get_header-set_body :
    (r : HttpResponse) (body : Bytes)
    → (get_header (set_body r body) content_length ≡ (
        if body =? [] || has_header r content_length
        then get_header r content_length
        else decimal (length body)))
      × ((set_body r body).body ≡ body)
unfolding set_body ensure_content_length get_header
get_header-set_body r body = elim (Bool-cases (body =? [])) [
  | inl e ↦ rw e (refl, refl)
  | inr e ↦ elim (Bool-cases (Headers.has_header r.headers content_length)) [
    | inl f ↦ rw (e, f) (refl, refl)
    | inr f ↦ rw (e, f) (get_header-set_self r.headers content_length (decimal (length body)), refl)
  ]
]

has_header-ensure :
    (r : HttpResponse)
    → r.body ≢ []
    → Headers.has_header (ensure_content_length r).headers content_length ≡ true
unfolding ensure_content_length
has_header-ensure r n = elim (Bool-cases (Headers.has_header r.headers content_length)) [
  | inl f ↦ ground (arith, f)
  | inr f ↦ ground (
    arith,
    f,
    n,
    =?_iff r.body [],
    has_header-set_self r.headers content_length (decimal (length r.body)),
  )
]

has_header-set_body :
    (r : HttpResponse) (body : Bytes)
    → body ≢ []
    → has_header (set_body r body) content_length ≡ true
unfolding has_header set_body
has_header-set_body r body n = has_header-ensure (record r { body = body }) n

append_body-later :
    (r : HttpResponse) (more : Bytes)
    → has_header r content_length ≡ true
    → append_body r more ≡ record r { body = r.body ++ more }
unfolding append_body ensure_content_length has_header
append_body-later r more h = rw h (not_both (r.body ++ more =? []) _ _)
  where
    not_both : (b : Bool) (x y : HttpResponse) → (if not b && false then x else y) ≡ y
    not_both true x y = refl
    not_both false x y = refl

-- A second piece of the body does not change the header that the first one set: it goes on to tell
-- the length of the first piece.
pub append_body_stale :
    (r : HttpResponse) (first second : Bytes)
    → has_header r content_length ≡ false
    → first ≢ []
    → length first < 2 ^ 64
    → (stoull (get_header (append_body (set_body r first) second) content_length)
        ≡ some (length first))
      × (length (append_body (set_body r first) second).body ≡ length first + length second)
unfolding get_header
append_body_stale r first second h n small =
    let there = has_header-set_body r first n in
    let set_ = get_header-set_body r first in
    rw (append_body-later (set_body r first) second there) (
      ap stoull (set_.0 ∙ fresh_length) ∙ stoull-decimal (length first) small,
      rw set_.1 (length-append first second),
    )
  where
    fresh_length :
        (if first =? [] || has_header r content_length
          then get_header r content_length
          else decimal (length first))
        ≡ decimal (length first)
    fresh_length = ground (arith, =?_iff first [])
