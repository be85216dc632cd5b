-- ===== src/Auth.antt =====
-- The crate auth (auth/src/lib.rs): who may hold a session, and how.
pub mod Types
pub mod Tokens
pub mod Trim
pub mod Service
pub mod Interfaces
