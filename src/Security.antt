-- ===== src/Security.antt =====
-- security.py: the rate limit of the API and its tokens.
pub mod Limiter
pub mod Window
pub mod Rate
pub mod Served
pub mod Tokens
