-- ===== src/Auth.antt =====
-- internal/auth: passphrase login, sessions, rate limiting.
pub mod Oldest
pub mod Times
pub mod RateLimit
pub mod Session
pub mod Next
pub mod Ip
pub mod Login
mod Tests
