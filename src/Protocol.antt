-- ===== src/Protocol.antt =====
-- firmware/deployment/Protocol.{h,cpp}: requests of the Jetson over USB.
pub mod Framer
pub mod Framing
pub mod Request
pub mod ReplayCache
pub mod Replay
pub mod Lexer
pub mod Parser
pub mod Total
pub mod Numbers
mod Tests
