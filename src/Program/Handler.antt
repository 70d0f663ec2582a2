-- ===== src/Program/Handler.antt =====
-- The requests that src/main.cpp answers: `http_handler` and the pages.
pub mod Routes
use tzzero_http.Prelude.{Bool, if◌then◌else◌, List, [], ◌∷◌, ◌++◌, Bytes, codes, ◌=?◌}
use tzzero_http.Http.Request.{HttpRequest, get_method_string}
use tzzero_http.Http.Response.{
  HttpResponse, ok, not_found, set_status_code, set_html_content_type, set_json_content_type,
  set_body,
}

abbrev pub create_welcome_page : Bytes
create_welcome_page =
    codes "<!DOCTYPE html>\n<html>\n<head>\n    <title>TZZero HTTP Server</title>\n"
    ++ codes "</head>\n<body>\n    <h1>TZZero HTTP Server</h1>\n"
    ++ codes "    <p>Server is running.</p>\n    <ul>\n"
    ++ codes "        <li><a href=\"/api/status\">Status API</a></li>\n"
    ++ codes "        <li><a href=\"/api/hello\">Hello API</a></li>\n"
    ++ codes "        <li><a href=\"/test\">Test Page</a></li>\n    </ul>\n</body>\n"
    ++ codes "</html>"

abbrev pub status_text : Bytes
status_text = codes "{\n    \"status\": \"ok\",\n    \"version\": \"1.0.0\"\n}"

abbrev pub hello_text : Bytes
hello_text = codes "{\n    \"message\": \"hello\"\n}"

unfoldable pub test_page : HttpRequest → Bytes
test_page req =
    codes "<!DOCTYPE html>\n<html>\n<head>\n    <title>Test Page</title>\n</head>\n"
    ++ codes "<body>\n    <h1>Test Page</h1>\n    <p>Method: "
    ++ (get_method_string req
        ++ (codes "</p>\n    <p>Path: "
            ++ (req.path ++ (codes "</p>\n    <p><a href=\"/\">Home</a></p>\n</body>\n</html>"))))

abbrev pub not_found_page : Bytes
not_found_page =
    codes "<!DOCTYPE html>\n<html>\n<head>\n    <title>404 Not Found</title>\n"
    ++ codes "</head>\n<body>\n    <h1>404 Not Found</h1>\n"
    ++ codes "    <p><a href=\"/\">Home</a></p>\n</body>\n</html>"

-- The response is the one that the server has prepared.
unfoldable pub http_handler : HttpRequest → HttpResponse → HttpResponse
unfolding test_page
http_handler req resp =
    if req.path =? codes "/"
    then set_body (set_html_content_type (set_status_code resp ok)) create_welcome_page
    else if req.path =? codes "/api/status"
    then set_body (set_json_content_type (set_status_code resp ok)) status_text
    else if req.path =? codes "/api/hello"
    then set_body (set_json_content_type (set_status_code resp ok)) hello_text
    else if req.path =? codes "/test"
    then set_body (set_html_content_type (set_status_code resp ok)) (test_page req)
    else set_body (set_html_content_type (set_status_code resp not_found)) not_found_page
