-- ===== src/Http/Tests.antt =====
-- Header maps and numbers (src/http/http_request.cpp, `std::stoull`) at small inputs.
use tzzero_http.Prelude.{arith, [], ◌∷◌, Bytes, codes}
use tzzero_http.Http.Headers.{Headers, IsValid}
use tzzero_http.Http.Numbers.{lower, to_lower}

abbrev accept : Headers
accept = (codes "accept", codes "a") ∷ []

abbrev field : Bytes
field = codes "Accept"

accept-IsValid : IsValid accept
unfolding lower to_lower
accept-IsValid = ground arith
