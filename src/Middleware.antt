-- ===== src/Middleware.antt =====
-- backend/internal/middleware.
pub mod Authz
pub mod Limits
pub mod Breaker
pub mod Rbac
