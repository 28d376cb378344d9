-- ===== src/Api.antt =====
-- api: what stands between a request and the service.
pub mod RateLimiter
pub mod Middleware
pub mod Response
