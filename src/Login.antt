-- ===== src/Login.antt =====
-- internal/identity/auth/login_protection.go: the protector against password guessing.
pub mod Protection
pub mod Bounds
pub mod Failures
pub mod Blocking
mod Examples
