-- ===== src/Middleware/Breaker/Concurrent.antt =====
-- Calls of many goroutines on the circuit breaker of rate_limiter.go: the locks are released between
-- the read of the state, the change to half-open and the record of the result.
use task_management_api.Shared.{
  ℕ, suc, ◌≡◌, refl, ◌⊎◌, Option, none, some, Bytes, bytes, bytes_eq, arith,
}
use task_management_api.Shared.Int.{ℤ, pos, Time, inc, ◌<ℤ◌}
use task_management_api.Middleware.Breaker.{
  CircuitBreaker, new_circuit_breaker, straight, probe, admission, begin_probe, conclude,
}

-- The breaker, the calls that have read an open state past its time, and the calls of `fn` that run.
pub record Running : Type 0 where
  pub breaker : CircuitBreaker
  pub probing : ℕ
  pub in_flight : ℕ

pub data Step : Running → Running → Type 0 where
  enters :
      {cb : CircuitBreaker} {p n : ℕ} (now : Time)
      → admission cb now ≡ straight
      → Step
          (record { breaker = cb; probing = p; in_flight = n })
          (record { breaker = cb; probing = p; in_flight = suc n })
  observes :
      {cb : CircuitBreaker} {p n : ℕ} (now : Time)
      → admission cb now ≡ probe
      → Step
          (record { breaker = cb; probing = p; in_flight = n })
          (record { breaker = cb; probing = suc p; in_flight = n })
  probes :
      {cb : CircuitBreaker} {p n : ℕ}
      → Step
          (record { breaker = cb; probing = suc p; in_flight = n })
          (record { breaker = begin_probe cb; probing = p; in_flight = suc n })
  concludes :
      {cb : CircuitBreaker} {p n : ℕ} (now : Time) (err : Option Bytes)
      → Step
          (record { breaker = cb; probing = p; in_flight = suc n })
          (record { breaker = conclude cb now err; probing = p; in_flight = n })

pub data Reach (s : Running) : Running → Type 0 where
  here : Reach s s
  next : {t u : Running} → Reach s t → Step t u → Reach s u

-- Only an open breaker has used up its failures, and its limits are those it was made with.
abbrev pub IsValid : ℤ → ℤ → CircuitBreaker → Type 0
IsValid max_failures reset_time cb =
    (cb.max_failures ≡ max_failures)
    × (cb.reset_time ≡ reset_time)
    × ((cb.state ≡ bytes "open")
        ⊎ (((cb.state ≡ bytes "closed") ⊎ (cb.state ≡ bytes "half-open"))
            × (cb.failures <ℤ max_failures)))

conclude-IsValid :
    (m r : ℤ) (cb : CircuitBreaker) (now : Time) (err : Option Bytes)
    → pos 0 <ℤ m
    → IsValid m r cb
    → IsValid m r (conclude cb now err)
unfolding conclude
conclude-IsValid m r cb now none p v = ground arith
conclude-IsValid m r cb now (some e) p v = ground arith

Step-IsValid :
    (m r : ℤ) (s t : Running)
    → pos 0 <ℤ m
    → Step s t
    → IsValid m r s.breaker
    → IsValid m r t.breaker
Step-IsValid m r _ _ p (enters now h) v = v
Step-IsValid m r _ _ p (observes now h) v = v
Step-IsValid m r _ _ p (probes {cb}) v = unfold begin_probe in ground arith
Step-IsValid m r _ _ p (concludes {cb} now err) v = conclude-IsValid m r cb now err p v

Reach-keeps :
    (m r : ℤ) (s t : Running)
    → pos 0 <ℤ m
    → Reach s t
    → IsValid m r s.breaker
    → IsValid m r t.breaker
Reach-keeps m r s _ p here v = v
Reach-keeps m r s u p (next {t} x y) v = Step-IsValid m r t u p y (Reach-keeps m r s t p x v)

abbrev pub start : ℤ → ℤ → Running
start m r = record { breaker = new_circuit_breaker m r; probing = 0; in_flight = 0 }

-- However calls interleave on a new breaker with a positive limit, its state is one of the three, and
-- unless it is open its count of failures is below the limit; the limits stay what they were.
pub Reach-Limited :
    (max_failures reset_time : ℤ) (s : Running)
    → pos 0 <ℤ max_failures
    → Reach (start max_failures reset_time) s
    → IsValid max_failures reset_time s.breaker
unfolding new_circuit_breaker
Reach-Limited m r s p x = Reach-keeps m r (start m r) s p x (ground arith)

probe-straight : (cb : CircuitBreaker) (now : Time) → admission (begin_probe cb) now ≡ straight
unfolding begin_probe admission bytes_eq
probe-straight cb now = refl

-- Two calls read the open state past its time. The first one fails and, with a limit of one failure,
-- opens the breaker again at `done`; the second one still sets it half-open, so that a call asked for
-- at any time, also at once, is let through without the wait.
pub stale_probe :
    (cb : CircuitBreaker) (now done later : Time) (e : Bytes)
    → cb.max_failures ≡ pos 1
    → admission cb now ≡ probe
    → (s t : Running) × Reach (record { breaker = cb; probing = 0; in_flight = 0 }) s
      × (s.breaker.state ≡ bytes "open")
      × (s.breaker.last_failure ≡ done)
      × Step s t
      × (t.breaker.last_failure ≡ done)
      × (admission t.breaker later ≡ straight)
stale_probe cb now done later e m h =
    let failed = conclude (begin_probe cb) done (some e) in
    (
      record { breaker = failed; probing = 1; in_flight = 0 },
      record { breaker = begin_probe failed; probing = 0; in_flight = 1 },
      next (next (next (next here (observes now h)) (observes now h)) probes)
          (concludes done (some e)),
      unfold begin_probe conclude inc in ground arith,
      unfold begin_probe conclude inc in ground arith,
      probes,
      unfold begin_probe conclude inc in ground arith,
      probe-straight failed later,
    )
