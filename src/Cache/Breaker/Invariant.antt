-- ===== src/Cache/Breaker/Invariant.antt =====
-- What holds of a breaker whatever calls run and however they interleave.
use task_management_api.Shared.{◌≡◌, refl, true, some, arith}
use task_management_api.Shared.Int.{pos, Time, ◌≤ℤ◌, ◌<ℤ◌, ◌+ℤ◌, max_int64, inc_parts, sub_time_ge}
use task_management_api.Cache.Breaker.{
  CircuitBreaker, CircuitBreakerConfig, CircuitBreakerState, closed, opened, half_open, allow,
  record_failure, record_success, new_circuit_breaker,
}
use task_management_api.Cache.Breaker.Concurrent.{
  Running, Step, Reach, enter, fails, succeeds, here, next,
}

-- Limits that a breaker can recover with: at least two trial calls, and all in the range of an int.
pub record IsUsable (config : CircuitBreakerConfig) : Type 0 where
  pub some_failures : pos 0 <ℤ config.max_failures
  pub two_trials : pos 1 <ℤ config.half_open_max_calls
  pub failures_range : config.max_failures ≤ℤ pos max_int64
  pub trials_range : config.half_open_max_calls ≤ℤ pos max_int64
  pub timeout_range : config.timeout ≤ℤ pos max_int64

abbrev pub Counts : CircuitBreakerState → CircuitBreaker → Type 0
Counts closed cb =
    (pos 0 ≤ℤ cb.failure_count) × (cb.failure_count <ℤ cb.max_failures) × (cb.success_count ≡ pos 0)
Counts opened cb = cb.success_count ≡ pos 0
Counts half_open cb = (pos 1 ≤ℤ cb.success_count) × (cb.success_count <ℤ cb.half_open_max_calls)

pub record IsValid (config : CircuitBreakerConfig) (cb : CircuitBreaker) : Type 0 where
  pub counts : Counts cb.state cb
  pub failures : cb.max_failures ≡ config.max_failures
  pub timeout : cb.timeout ≡ config.timeout
  pub trials : cb.half_open_max_calls ≡ config.half_open_max_calls

new-IsValid :
    (config : CircuitBreakerConfig)
    → IsUsable config
    → IsValid config (new_circuit_breaker (some config))
unfolding new_circuit_breaker
new-IsValid config u = record {
  counts = (omega arith, omega arith, refl);
  failures = refl;
  timeout = refl;
  trials = refl;
}

module _ {config : CircuitBreakerConfig} (u : IsUsable config) where
  failure-Counts :
      (st : CircuitBreakerState) (cb : CircuitBreaker) (now : Time)
      → cb.state ≡ st
      → Counts st cb
      → cb.max_failures ≡ config.max_failures
      → Counts (record_failure cb now).state (record_failure cb now)
  unfolding record_failure
  failure-Counts closed cb now e c m = ground (arith, inc_parts cb.failure_count)
  failure-Counts opened cb now e c m = ground arith
  failure-Counts half_open cb now e c m = ground arith

  success-Counts :
      (st : CircuitBreakerState) (cb : CircuitBreaker) (now : Time)
      → cb.state ≡ st
      → Counts st cb
      → cb.max_failures ≡ config.max_failures
      → cb.half_open_max_calls ≡ config.half_open_max_calls
      → Counts (record_success cb now).state (record_success cb now)
  unfolding record_success
  success-Counts closed cb now e c m k = ground arith
  success-Counts opened cb now e c m k = ground arith
  success-Counts half_open cb now e c m k = ground (arith, inc_parts cb.success_count)

  record_failure-IsValid :
      (cb : CircuitBreaker) (now : Time)
      → IsValid config cb
      → IsValid config (record_failure cb now)
  record_failure-IsValid cb now v = record {
    counts = failure-Counts cb.state cb now refl v.counts v.failures;
    failures = unfold record_failure in ground arith;
    timeout = unfold record_failure in ground arith;
    trials = unfold record_failure in ground arith;
  }

  record_success-IsValid :
      (cb : CircuitBreaker) (now : Time)
      → IsValid config cb
      → IsValid config (record_success cb now)
  record_success-IsValid cb now v = record {
    counts = success-Counts cb.state cb now refl v.counts v.failures v.trials;
    failures = unfold record_success in ground arith;
    timeout = unfold record_success in ground arith;
    trials = unfold record_success in ground arith;
  }

  Step-IsValid : {s t : Running} → Step s t → IsValid config s.breaker → IsValid config t.breaker
  Step-IsValid (enter now h) v = v
  Step-IsValid (fails {cb} now) v = record_failure-IsValid cb now v
  Step-IsValid (succeeds {cb} now) v = record_success-IsValid cb now v

  Reach-keeps : {s t : Running} → IsValid config s.breaker → Reach s t → IsValid config t.breaker
  Reach-keeps v here = v
  Reach-keeps v (next r st) = Step-IsValid st (Reach-keeps v r)

-- For usable limits, in every state that concurrent calls of `Execute` can bring a new breaker to:
-- the limits are those configured; a closed breaker has counted fewer failures than the limit, and
-- no trial; an open one has counted no trial; a half-open one has counted at least one trial and
-- fewer than the limit.
pub Reach-IsValid :
    (config : CircuitBreakerConfig) (t : Running)
    → IsUsable config
    → Reach (record { breaker = new_circuit_breaker (some config); in_flight = 0 }) t
    → IsValid config t.breaker
Reach-IsValid config t u r = Reach-keeps u (new-IsValid config u) r

allow_eventually :
    (st : CircuitBreakerState) (cb : CircuitBreaker) (now : Time)
    → cb.state ≡ st
    → Counts st cb
    → cb.timeout ≤ℤ pos max_int64
    → cb.last_failure_time +ℤ cb.timeout ≤ℤ now
    → allow cb now ≡ true
unfolding allow
allow_eventually closed cb now e c r h = ground arith
allow_eventually opened cb now e c r h =
    ground (arith, sub_time_ge now cb.last_failure_time cb.timeout r h)
allow_eventually half_open cb now e c r h = ground arith

-- For usable limits the breaker never shuts for good: whatever concurrent calls have done, once the
-- timeout has passed since the last failure, a call of `fn` is let through.
pub allow-Reach :
    (config : CircuitBreakerConfig) (t : Running) (now : Time)
    → IsUsable config
    → Reach (record { breaker = new_circuit_breaker (some config); in_flight = 0 }) t
    → t.breaker.last_failure_time +ℤ config.timeout ≤ℤ now
    → allow t.breaker now ≡ true
allow-Reach config t now u r h =
    let v = Reach-IsValid config t u r in
    allow_eventually t.breaker.state t.breaker now refl v.counts (rw v.timeout u.timeout_range)
      (rw v.timeout h)
