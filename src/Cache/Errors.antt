-- ===== src/Cache/Errors.antt =====
-- The errors that the package declares (redis.go, circuit_breaker.go), and all others by their text.
-- A Go `error` result is an `Option Error`, with `none` for nil.
use task_management_api.Shared.{Bytes}

pub data Error : Type 0 where
  cache_miss cache_down circuit_breaker_open too_many_requests : Error
  failed : Bytes → Error
