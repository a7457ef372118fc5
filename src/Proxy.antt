-- ===== src/Proxy.antt =====
-- internal/proxy: the relay, the replay and the capture of an exchange.
pub mod Format
pub mod Header
pub mod Url
pub mod Capture
pub mod Exchange
pub mod Relay
pub mod Replay
pub mod Opened
pub mod Captured
pub mod Answered
pub mod Failed
pub mod Sent
pub mod Forwarded
pub mod Client
pub mod Transparent
pub mod Replayed
pub mod Preview
