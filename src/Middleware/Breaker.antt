-- ===== src/Middleware/Breaker.antt =====
-- The circuit breaker of backend/internal/middleware/rate_limiter.go, which is another one than that
-- of the cache. `Call` takes its lock up to three times; each time is one function here.
pub mod Concurrent
pub mod Ideal
mod Tests
use task_management_api.Shared.{
  Bool, true, false, Option, none, some, Bytes, bytes, bytes_eq, if◌then◌else◌,
}
use task_management_api.Shared.Int.{ℤ, pos, Time, inc, ltb_ℤ, leb_ℤ, sub_time}
use task_management_api.Cache.Breaker.{zero_time}

pub record CircuitBreaker : Type 0 where
  pub max_failures : ℤ
  pub reset_time : ℤ
  pub failures : ℤ
  pub last_failure : Time
  pub state : Bytes

unfoldable pub new_circuit_breaker : ℤ → ℤ → CircuitBreaker
new_circuit_breaker max_failures reset_time = record {
  max_failures = max_failures;
  reset_time = reset_time;
  failures = pos 0;
  last_failure = zero_time;
  state = bytes "closed";
}

-- What the `switch` makes of the state that was read.
pub data Admission : Type 0 where
  straight probe refused : Admission

-- The read under the first lock, and the tests on it.
unfoldable pub admission : CircuitBreaker → Time → Admission
admission cb now =
    if bytes_eq cb.state (bytes "open")
    then (if ltb_ℤ cb.reset_time (sub_time now cb.last_failure) then probe else refused)
    else straight

-- Under the second lock, in which the state is not read again.
unfoldable pub begin_probe : CircuitBreaker → CircuitBreaker
begin_probe cb = record cb { state = bytes "half-open"; failures = pos 0 }

-- Under the last lock, by the error of `fn`.
unfoldable pub conclude : CircuitBreaker → Time → Option Bytes → CircuitBreaker
conclude cb now (some e) =
    let counted = record cb { failures = inc cb.failures; last_failure = now } in
    if leb_ℤ counted.max_failures counted.failures
    then record counted { state = bytes "open" }
    else counted
conclude cb now none = record cb { failures = pos 0; state = bytes "closed" }

abbrev run {ℓ} :
    {W : Type ℓ}
    → (W → W × Option Bytes)
    → Time
    → CircuitBreaker
    → W
    → CircuitBreaker × W × Option Bytes
run fn done cb w = let (w', err) = fn w in (conclude cb done err, w', err)

-- `Call`, run alone: `asked` and `done` are the clock before and after the call of `fn`, which works
-- on a state `W` of its own.
unfoldable pub call {ℓ} :
    {W : Type ℓ}
    → (W → W × Option Bytes)
    → (asked done : Time) → CircuitBreaker
    → W
    → CircuitBreaker × W × Option Bytes
unfolding admission begin_probe
call fn asked done cb w = elim (admission cb asked) [
  | straight ↦ run fn done cb w
  | probe ↦ run fn done (begin_probe cb) w
  | refused ↦ (cb, w, some (bytes "circuit breaker is open"))
]
