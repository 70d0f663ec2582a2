-- ===== src/Http.antt =====
-- The HTTP part: src/http and include/tzzero/http.
pub mod Numbers
pub mod Headers
pub mod Request
pub mod Parser
pub mod RoundTrip
pub mod Response
pub mod Server
pub mod Samples
mod Tests
