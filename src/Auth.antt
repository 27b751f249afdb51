-- ===== src/Auth.antt =====
-- src/auth: logins by password and by PIN, device sessions and their refresh tokens.
pub mod Config
pub mod Tokens
pub mod Login
pub mod Pin
pub mod Refresh
pub mod Spent
pub mod Logins
pub mod Reuse
pub mod Failures
pub mod Lockout
