-- ===== src/Callback.antt =====
-- internal/security/callback: claims of a callback token, the replay guard, and the acceptor.
pub mod Claims
pub mod Replay
pub mod Token
pub mod Accept
mod Tests
