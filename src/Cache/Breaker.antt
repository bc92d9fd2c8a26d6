-- ===== src/Cache/Breaker.antt =====
-- backend/internal/cache/circuit_breaker.go. The clock is an argument of each method that reads it,
-- and a method is one atomic step, as its mutex makes it.
pub mod Concurrent
pub mod Invariant
pub mod Runs
pub mod Trips
pub mod Recovery
mod Tests
use task_management_api.Shared.{Bool, true, false, Option, none, some, if◌then◌else◌}
use task_management_api.Shared.{Bytes, bytes}
use task_management_api.Shared.Int.{ℤ, pos, negsuc, Time, inc, ltb_ℤ, leb_ℤ, sub_time, unix}
use task_management_api.Cache.Errors.{Error, circuit_breaker_open}

pub data CircuitBreakerState : Type 0 where
  closed opened half_open : CircuitBreakerState

pub record CircuitBreakerConfig : Type 0 where
  pub max_failures : ℤ
  pub timeout : ℤ
  pub half_open_max_calls : ℤ

pub record CircuitBreaker : Type 0 where
  pub state : CircuitBreakerState
  pub failure_count : ℤ
  pub success_count : ℤ
  pub last_failure_time : Time
  pub max_failures : ℤ
  pub timeout : ℤ
  pub half_open_max_calls : ℤ

-- `time.Time{}`: the first of January of the year 1.
abbrev pub zero_time : Time
zero_time = negsuc 62_135_596_799_999_999_999

unfoldable pub default_circuit_breaker_config : CircuitBreakerConfig
default_circuit_breaker_config = record {
  max_failures = pos 5;
  timeout = pos 30_000_000_000;
  half_open_max_calls = pos 3;
}

abbrev pub circuit_breaker_of : CircuitBreakerConfig → CircuitBreaker
circuit_breaker_of config = record {
  state = closed;
  failure_count = pos 0;
  success_count = pos 0;
  last_failure_time = zero_time;
  max_failures = config.max_failures;
  timeout = config.timeout;
  half_open_max_calls = config.half_open_max_calls;
}

-- `none` is a nil config.
unfoldable pub new_circuit_breaker : Option CircuitBreakerConfig → CircuitBreaker
unfolding default_circuit_breaker_config
new_circuit_breaker none = circuit_breaker_of default_circuit_breaker_config
new_circuit_breaker (some config) = circuit_breaker_of config

unfoldable pub should_attempt_reset : CircuitBreaker → Time → Bool
should_attempt_reset cb now = leb_ℤ cb.timeout (sub_time now cb.last_failure_time)

unfoldable pub allow : CircuitBreaker → Time → Bool
unfolding should_attempt_reset
allow cb now = elim cb.state [
  | closed ↦ true
  | opened ↦ should_attempt_reset cb now
  | half_open ↦ ltb_ℤ cb.success_count cb.half_open_max_calls
]

unfoldable pub record_failure : CircuitBreaker → Time → CircuitBreaker
record_failure cb now =
    let counted = record cb { failure_count = inc cb.failure_count; last_failure_time = now } in
    elim cb.state [
      | closed ↦
          if leb_ℤ counted.max_failures counted.failure_count
          then record counted { state = opened }
          else counted
      | opened ↦ counted
      | half_open ↦ record counted { state = opened; success_count = pos 0 }
    ]

unfoldable pub record_success : CircuitBreaker → Time → CircuitBreaker
unfolding should_attempt_reset
record_success cb now = elim cb.state [
  | closed ↦ record cb { failure_count = pos 0 }
  | half_open ↦
      let counted = record cb { success_count = inc cb.success_count } in
      if leb_ℤ counted.half_open_max_calls counted.success_count
      then record counted { state = closed; failure_count = pos 0; success_count = pos 0 }
      else counted
  | opened ↦
      if should_attempt_reset cb now
      then record cb { state = half_open; success_count = pos 1 }
      else cb
]

-- The end of `Execute`, by the error that the call returned.
abbrev pub record_result : CircuitBreaker → Time → Option Error → CircuitBreaker
record_result cb now none = record_success cb now
record_result cb now (some e) = record_failure cb now

-- `Execute`, run alone: `asked` and `done` are the clock before and after the call of `fn`, which
-- works on a state `W` of its own.
unfoldable pub execute {ℓ} :
    {W : Type ℓ}
    → (W → W × Option Error)
    → (asked done : Time) → CircuitBreaker
    → W
    → CircuitBreaker × W × Option Error
unfolding allow
execute fn asked done cb w =
    if allow cb asked
    then (let (w', err) = fn w in (record_result cb done err, w', err))
    else (cb, w, some circuit_breaker_open)

pub get_state : CircuitBreaker → CircuitBreakerState
get_state cb = cb.state

-- `GetStats`; the timeout stays a duration, where the code converts it to seconds.
pub record CircuitBreakerStats : Type 0 where
  pub state : Bytes
  pub failure_count : ℤ
  pub success_count : ℤ
  pub last_failure : ℤ
  pub max_failures : ℤ
  pub timeout : ℤ

pub state_name : CircuitBreakerState → Bytes
state_name closed = bytes "closed"
state_name opened = bytes "open"
state_name half_open = bytes "half-open"

pub get_stats : CircuitBreaker → CircuitBreakerStats
unfolding state_name
get_stats cb = record {
  state = state_name cb.state;
  failure_count = cb.failure_count;
  success_count = cb.success_count;
  last_failure = unix cb.last_failure_time;
  max_failures = cb.max_failures;
  timeout = cb.timeout;
}
