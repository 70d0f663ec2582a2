-- ===== src/Http/Response/Status.antt =====
-- `HttpStatusCode` of include/tzzero/http/http_response.h and its texts.
use tzzero_http.Prelude.{ℕ, Bytes, codes}

pub data HttpStatusCode : Type 0 where
  continue_ switching_protocols : HttpStatusCode
  ok created accepted no_content partial_content : HttpStatusCode
  moved_permanently found not_modified temporary_redirect : HttpStatusCode
  bad_request unauthorized forbidden not_found method_not_allowed : HttpStatusCode
  request_timeout length_required payload_too_large : HttpStatusCode
  internal_server_error not_implemented bad_gateway service_unavailable : HttpStatusCode
  gateway_timeout http_version_not_supported : HttpStatusCode

-- `static_cast<int>`
unfoldable pub code_number : HttpStatusCode → ℕ
code_number continue_ = 100
code_number switching_protocols = 101
code_number ok = 200
code_number created = 201
code_number accepted = 202
code_number no_content = 204
code_number partial_content = 206
code_number moved_permanently = 301
code_number found = 302
code_number not_modified = 304
code_number temporary_redirect = 307
code_number bad_request = 400
code_number unauthorized = 401
code_number forbidden = 403
code_number not_found = 404
code_number method_not_allowed = 405
code_number request_timeout = 408
code_number length_required = 411
code_number payload_too_large = 413
code_number internal_server_error = 500
code_number not_implemented = 501
code_number bad_gateway = 502
code_number service_unavailable = 503
code_number gateway_timeout = 504
code_number http_version_not_supported = 505

unfoldable pub status_message : HttpStatusCode → Bytes
status_message continue_ = codes "Continue"
status_message switching_protocols = codes "Switching Protocols"
status_message ok = codes "OK"
status_message created = codes "Created"
status_message accepted = codes "Accepted"
status_message no_content = codes "No Content"
status_message partial_content = codes "Partial Content"
status_message moved_permanently = codes "Moved Permanently"
status_message found = codes "Found"
status_message not_modified = codes "Not Modified"
status_message temporary_redirect = codes "Temporary Redirect"
status_message bad_request = codes "Bad Request"
status_message unauthorized = codes "Unauthorized"
status_message forbidden = codes "Forbidden"
status_message not_found = codes "Not Found"
status_message method_not_allowed = codes "Method Not Allowed"
status_message request_timeout = codes "Request Timeout"
status_message length_required = codes "Length Required"
status_message payload_too_large = codes "Payload Too Large"
status_message internal_server_error = codes "Internal Server Error"
status_message not_implemented = codes "Not Implemented"
status_message bad_gateway = codes "Bad Gateway"
status_message service_unavailable = codes "Service Unavailable"
status_message gateway_timeout = codes "Gateway Timeout"
status_message http_version_not_supported = codes "HTTP Version Not Supported"
