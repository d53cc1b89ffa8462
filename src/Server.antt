-- ===== src/Server.antt =====
-- internal/server: what guards the HTTP and gRPC servers, and the pages of their lists.
pub mod RateLimiter
pub mod Pagination
