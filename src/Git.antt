-- ===== src/Git.antt =====
-- internal/git: reading git's output, and the remote URLs.
pub mod Porcelain
pub mod Remote
pub mod System
pub mod Commands
pub mod Inspect
mod Tests
