-- ===== src/Auth.antt =====
-- Users and authentication: src/features/auth and src/features/users.
pub mod Data
pub mod Passwords
pub mod Tokens
pub mod Repository
pub mod Users
pub mod Guard
mod Tests
