-- ===== src/Services.antt =====
-- The package backend/internal/services.
pub mod Auth
pub mod Register
pub mod Database
pub mod Authorization
pub mod CachedTasks
pub mod Tasks
pub mod Users
