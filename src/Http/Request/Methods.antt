-- ===== src/Http/Request/Methods.antt =====
-- `HttpMethod` and `HttpVersion` of include/tzzero/http/http_request.h, with their texts.
use tzzero_http.Prelude.{Bytes, codes}

pub data HttpMethod : Type 0 where
  invalid get post put delete head options patch connect trace : HttpMethod

pub data HttpVersion : Type 0 where
  unknown http_1_0 http_1_1 http_2_0 : HttpVersion

unfoldable pub method_string : HttpMethod → Bytes
method_string get = codes "GET"
method_string post = codes "POST"
method_string put = codes "PUT"
method_string delete = codes "DELETE"
method_string head = codes "HEAD"
method_string options = codes "OPTIONS"
method_string patch = codes "PATCH"
method_string connect = codes "CONNECT"
method_string trace = codes "TRACE"
method_string invalid = codes "UNKNOWN"

unfoldable pub version_string : HttpVersion → Bytes
version_string http_1_0 = codes "HTTP/1.0"
version_string http_1_1 = codes "HTTP/1.1"
version_string http_2_0 = codes "HTTP/2.0"
version_string unknown = codes "HTTP/1.1"
