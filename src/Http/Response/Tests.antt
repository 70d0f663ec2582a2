-- ===== src/Http/Response/Tests.antt =====
-- The methods of `HttpResponse` (src/http/http_response.cpp) on new responses.
use tzzero_http.Prelude.{◌+◌, ◌≡◌, refl, arith, false, some, Bytes, codes, length}
use tzzero_http.Http.Headers
use tzzero_http.Http.Headers.{Headers, find}
use tzzero_http.Http.Numbers.{stoull}
use tzzero_http.Http.Response.{fresh, get_header, has_header, set_body, append_body}
use tzzero_http.Http.Response.Length.{content_length, append_body_stale}

abbrev walk : Headers → Headers
walk h = h

abbrev body : Bytes
body = codes "hello"

abbrev date : Bytes
date = codes "Thu, 01 Jan 1970 00:00:00 GMT"

fresh-lacks : has_header fresh content_length ≡ false
unfolding has_header Headers.has_header find
fresh-lacks = refl

append_body_stale_example :
    (stoull (get_header (append_body (set_body fresh body) body) content_length)
      ≡ some (length body))
    × (length (append_body (set_body fresh body) body).body ≡ length body + length body)
append_body_stale_example = append_body_stale fresh body body fresh-lacks (λ e. cc) (omega arith)
