-- ===== src/Auth.antt =====
-- ui/app/auth.py: the login limiter, web sessions and password hashes.
pub mod Limiter
pub mod Backoff
pub mod Parallel
pub mod WebSessions
pub mod Cookies
pub mod Passwords
