-- ===== src/Auth.antt =====
-- internal/auth/auth.go: passwords, the limit on logins, and session cookies.
pub mod Passwords
pub mod Limiter
pub mod Sessions
