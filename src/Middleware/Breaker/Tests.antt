-- ===== src/Middleware/Breaker/Tests.antt =====
-- The circuit breaker of rate_limiter.go at concrete inputs.
use task_management_api.Shared.{
  arith, ◌≡◌, refl, Option, none, some, [], ◌∷◌, Bytes, bytes, bytes_eq,
}
use task_management_api.Shared.Int.{pos, inc, sub_time}
use task_management_api.Middleware.Breaker.{
  new_circuit_breaker, admission, begin_probe, conclude, straight, probe, call,
}
use task_management_api.Middleware.Breaker.Concurrent.{
  Running, Step, enters, concludes, Reach, here, next, IsValid, start, Reach-Limited, stale_probe,
}
use task_management_api.Middleware.Breaker.Ideal.{
  counting, counter_replies, replies, replies-counter_replies,
}

-- A call fails while the world is 0.
abbrev flaky : Bytes → Bytes × Option Bytes
flaky [] = ([], some (bytes "down"))
flaky (b ∷ bs) = (bs, none)

-- Two failures open the breaker, the third call is refused, and a late one goes through.
two_failures :
    (replies flaky
      ((pos 1, pos 2) ∷ (pos 3, pos 4) ∷ (pos 5, pos 6) ∷ (pos 15, pos 16) ∷ [])
      (new_circuit_breaker (pos 2) (pos 10))
      []).0
    ≡ (some (bytes "down")
        ∷ some (bytes "down")
        ∷ some (bytes "circuit breaker is open")
        ∷ some (bytes "down")
        ∷ [])
unfolding replies call admission begin_probe conclude new_circuit_breaker bytes_eq inc sub_time
two_failures = refl

replies-counter_replies_example :
    replies flaky
      ((pos 1, pos 2) ∷ (pos 3, pos 4) ∷ (pos 5, pos 6) ∷ [])
      (new_circuit_breaker (pos 2) (pos 10))
      []
    ≡ counter_replies flaky
        (pos 2)
        (pos 10)
        ((pos 1, pos 2) ∷ (pos 3, pos 4) ∷ (pos 5, pos 6) ∷ [])
        (counting (pos 0))
        []
replies-counter_replies_example =
    replies-counter_replies flaky (pos 2) (pos 10)
      ((pos 1, pos 2) ∷ (pos 3, pos 4) ∷ (pos 5, pos 6) ∷ []) []

abbrev failed_once : Running
failed_once = record {
  breaker = conclude (new_circuit_breaker (pos 1) (pos 10)) (pos 2) (some (bytes "down"));
  probing = 0;
  in_flight = 0;
}

new_admits : admission (new_circuit_breaker (pos 1) (pos 10)) (pos 1) ≡ straight
unfolding admission new_circuit_breaker bytes_eq
new_admits = refl

failed_once_reached : Reach (start (pos 1) (pos 10)) failed_once
failed_once_reached =
    next (next here (enters (pos 1) new_admits)) (concludes (pos 2) (some (bytes "down")))

Reach-Limited_example : IsValid (pos 1) (pos 10) failed_once.breaker
Reach-Limited_example = Reach-Limited (pos 1) (pos 10) failed_once (omega arith) failed_once_reached

late_probes : admission failed_once.breaker (pos 15) ≡ probe
unfolding admission conclude new_circuit_breaker bytes_eq inc sub_time
late_probes = refl

limit_one : failed_once.breaker.max_failures ≡ pos 1
unfolding conclude new_circuit_breaker inc
limit_one = refl

stale_probe_example :
    (s t : Running) × Reach (record { breaker = failed_once.breaker; probing = 0; in_flight = 0 }) s
    × (s.breaker.state ≡ bytes "open")
    × (s.breaker.last_failure ≡ pos 16)
    × Step s t
    × (t.breaker.last_failure ≡ pos 16)
    × (admission t.breaker (pos 17) ≡ straight)
stale_probe_example =
    stale_probe failed_once.breaker (pos 15) (pos 16) (pos 17) (bytes "down") limit_one late_probes
