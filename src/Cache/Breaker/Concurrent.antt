-- ===== src/Cache/Breaker/Concurrent.antt =====
-- Execute called by many goroutines: a call runs unlocked between `allow` and the record of its
-- result, so the methods of other calls interleave with it.
use task_management_api.Shared.{ℕ, suc, ◌≡◌, true}
use task_management_api.Shared.Int.{Time}
use task_management_api.Cache.Breaker.{CircuitBreaker, allow, record_failure, record_success}

-- The breaker, and the number of calls of `fn` that are running.
pub record Running : Type 0 where
  pub breaker : CircuitBreaker
  pub in_flight : ℕ

pub data Step : Running → Running → Type 0 where
  enter :
      {cb : CircuitBreaker} {n : ℕ} (now : Time)
      → allow cb now ≡ true
      → Step (record { breaker = cb; in_flight = n }) (record { breaker = cb; in_flight = suc n })
  fails :
      {cb : CircuitBreaker} {n : ℕ} (now : Time)
      → Step
          (record { breaker = cb; in_flight = suc n })
          (record { breaker = record_failure cb now; in_flight = n })
  succeeds :
      {cb : CircuitBreaker} {n : ℕ} (now : Time)
      → Step
          (record { breaker = cb; in_flight = suc n })
          (record { breaker = record_success cb now; in_flight = n })

pub data Reach (s : Running) : Running → Type 0 where
  here : Reach s s
  next : {t u : Running} → Reach s t → Step t u → Reach s u
