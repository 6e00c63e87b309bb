-- ===== src/Middleware.antt =====
-- src/oauth2_server/middleware_ratelimit.py: the admission of requests.
pub mod Resilience
pub mod RateLimit
