-- ===== src/Http/Response/Text.antt =====
-- The text of a response.
use tzzero_http.Prelude.{◌≡◌, sym, ap, ◌∙◌, [], ◌++◌, append_assoc, Bytes, codes}
use tzzero_http.Http.Headers.{Headers}
use tzzero_http.Http.Request.{header_lines}
use tzzero_http.Http.Response.{
  HttpResponse, append_to_buffer, to_buffer, status_line, server_line, date_line, connection_line,
}

module _ (walk : Headers → Headers) (date : Bytes) where
  -- The parts of the text, in order.
  pub text : HttpResponse → Bytes
  text r =
      status_line r.status_code
      ++ (header_lines (walk r.headers)
          ++ (connection_line r.close_connection
              ++ (server_line walk date r ++ (date_line walk date r ++ (codes "\r\n" ++ r.body)))))

  append_to_buffer-text :
      (r : HttpResponse) (buffer : Bytes) → append_to_buffer walk date r buffer ≡ buffer ++ text r
  unfolding append_to_buffer text
  append_to_buffer-text r buffer = simp append_assoc

  -- What is written to a buffer goes behind what it holds, and does not depend on it.
  pub append_to_buffer-to_buffer :
      (r : HttpResponse) (buffer : Bytes)
      → append_to_buffer walk date r buffer ≡ buffer ++ to_buffer walk date r
  unfolding to_buffer
  append_to_buffer-to_buffer r buffer =
      append_to_buffer-text r buffer ∙ ap (λ s. buffer ++ s) (sym (append_to_buffer-text r []))

  -- The text of a response: status line, header lines, one line for the connection, the server's
  -- and the date's lines, an empty line and the body.
  pub to_buffer-text : (r : HttpResponse) → to_buffer walk date r ≡ text r
  unfolding to_buffer
  to_buffer-text r = append_to_buffer-text r []
