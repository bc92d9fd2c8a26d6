-- ===== src/Cache.antt =====
-- The package backend/internal/cache: one child module for each of its files.
pub mod Errors
pub mod Breaker
pub mod SyncMap
pub mod Pattern
pub mod Memory
pub mod Metrics
pub mod Values
pub mod Redis
pub mod MultiLevel
pub mod Jobs
pub mod PriorityQueue
pub mod WorkerPool
pub mod Triggers
pub mod Scheduler
pub mod Warmer
pub mod Manager
