-- ===== src/Auth.antt =====
-- The session: its store and keychain, the requests that use it, and the push taps that wait for
-- it.
pub mod Store
pub mod Client
pub mod Sharing
pub mod Taps
mod Tests
