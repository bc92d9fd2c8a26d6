-- ===== src/Cache/Jobs.antt =====
-- `WarmupJob` of backend/internal/cache/warmer.go; `D` is what a value of the cache is.
use task_management_api.Shared.{Bytes}
use task_management_api.Shared.Int.{ℤ}

-- `value` is the field `Data`.
pub record WarmupJob (D : Type 0) : Type 0 where
  pub key : Bytes
  pub value : D
  pub ttl : ℤ
  pub priority : ℤ
