-- ===== src/Cache/Breaker/Tests.antt =====
-- The circuit breaker at concrete inputs.
use task_management_api.Shared.{◌≡◌, refl, true, Option, none, some, [], ◌∷◌, ◌++◌, arith, ℕ, ◌+◌}
use task_management_api.Shared.Int.{pos, ◌+ℤ◌, inc}
use task_management_api.Cache.Errors.{Error, cache_down}
use task_management_api.Cache.Breaker.{
  CircuitBreakerConfig, CircuitBreaker, closed, opened, half_open, new_circuit_breaker, allow,
  record_failure, record_success,
}
use task_management_api.Cache.Breaker.Concurrent.{Running, Reach, enter, fails, here, next}
use task_management_api.Cache.Breaker.Invariant.{IsValid, Reach-IsValid, allow-Reach}
use task_management_api.Cache.Breaker.Runs.{execute_all, single_trial_locks}
use task_management_api.Cache.Breaker.Trips.{trips_at_limit}
use task_management_api.Cache.Breaker.Recovery.{recovers_at_limit}

abbrev config : CircuitBreakerConfig
config = record { max_failures = pos 2; timeout = pos 100; half_open_max_calls = pos 2 }

abbrev new_breaker : CircuitBreaker
new_breaker = new_circuit_breaker (some config)

-- One call has failed, at the time 5.
abbrev failed_once : Running
failed_once = record { breaker = record_failure new_breaker (pos 5); in_flight = 0 }

failed_once-Reach : Reach (record { breaker = new_breaker; in_flight = 0 }) failed_once
unfolding allow new_circuit_breaker
failed_once-Reach = next (next here (enter (pos 1) refl)) (fails (pos 5))

abbrev tripped : CircuitBreaker
tripped = record {
  state = opened;
  failure_count = pos 2;
  success_count = pos 0;
  last_failure_time = pos 10;
  max_failures = pos 2;
  timeout = pos 100;
  half_open_max_calls = pos 2;
}

abbrev fresh : CircuitBreaker
fresh = record tripped { state = closed; failure_count = pos 0 }

-- Functions that count their calls, and fail or succeed.
abbrev failing : ℕ → ℕ × Option Error
failing n = (n + 1, some cache_down)

abbrev succeeding : ℕ → ℕ × Option Error
succeeding n = (n + 1, none)

Reach-IsValid_example : IsValid config failed_once.breaker
Reach-IsValid_example = Reach-IsValid config failed_once (omega arith) failed_once-Reach

allow-Reach_example : allow failed_once.breaker (pos 105) ≡ true
unfolding record_failure new_circuit_breaker ◌+ℤ◌ inc
allow-Reach_example =
    allow-Reach config failed_once (pos 105) (omega arith) failed_once-Reach (omega arith)

recovers_at_limit_example :
    ((execute_all succeeding ((pos 110, pos 111) ∷ []) tripped 0).0.state ≡ half_open)
    × ((execute_all succeeding
          (((pos 110, pos 111) ∷ []) ++ (pos 112, pos 113) ∷ [])
          tripped
          0).0.state
        ≡ closed)
    × ((execute_all succeeding
          (((pos 110, pos 111) ∷ []) ++ (pos 112, pos 113) ∷ [])
          tripped
          0).0.failure_count
        ≡ pos 0)
unfolding ◌+ℤ◌
recovers_at_limit_example =
    recovers_at_limit succeeding (λ w. refl) [] (pos 110) (pos 111) (pos 112) (pos 113) tripped 0
      refl refl (omega arith) (omega arith) (omega arith) (omega arith)

abbrev single : CircuitBreaker
single = record tripped { half_open_max_calls = pos 1 }

single_trial_locks_example :
    ((record_success single (pos 200)).state ≡ half_open)
    × (execute_all succeeding ((pos 300, pos 301) ∷ []) (record_success single (pos 200)) 0
        ≡ (record_success single (pos 200), 0))
unfolding ◌+ℤ◌
single_trial_locks_example =
    single_trial_locks succeeding ((pos 300, pos 301) ∷ []) single (pos 200) 0 refl (omega arith)
      (omega arith) (omega arith)

trips_at_limit_example :
    ((execute_all failing ((pos 1, pos 2) ∷ []) fresh 0).0.state ≡ closed)
    × ((execute_all failing ((pos 1, pos 2) ∷ []) fresh 0).0.failure_count ≡ pos 1)
    × ((execute_all failing (((pos 1, pos 2) ∷ []) ++ (pos 3, pos 4) ∷ []) fresh 0).0.state
        ≡ opened)
    × ((execute_all failing
          (((pos 1, pos 2) ∷ []) ++ (pos 3, pos 4) ∷ [])
          fresh
          0).0.last_failure_time
        ≡ pos 4)
trips_at_limit_example =
    trips_at_limit failing (λ w. (cache_down, refl)) ((pos 1, pos 2) ∷ []) (pos 3) (pos 4) fresh 0
      refl refl refl (omega arith)
