-- ===== src/Web.antt =====
-- internal/web: the interface over HTTP.
pub mod Utf8
pub mod Payloads
pub mod Routes
pub mod Answers
pub mod Router
pub mod Reads
pub mod Served
pub mod Recalled
pub mod Stream
pub mod Framed
pub mod Followed
