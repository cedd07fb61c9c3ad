-- ===== src/Middleware.antt =====
-- internal/middleware: what stands in front of every route.
pub mod Request
pub mod ClientAddress
pub mod RateLimit
pub mod BanList
