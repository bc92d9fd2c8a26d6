-- ===== src/Cache/Breaker/Runs.antt =====
-- Runs of `Execute` of circuit_breaker.go, one call after another, and calls that are refused.
use task_management_api.Shared.{◌≡◌, refl, true, false, Option, List, [], ◌∷◌, ◌++◌, arith, ◌≢◌}
use task_management_api.Shared.Int.{
  pos, negsuc, Time, ◌≤ℤ◌, ◌<ℤ◌, ◌+ℤ◌, max_int64, leb_ℤ, sub_time, sub_time_ge, sub_time_lt,
}
use task_management_api.Cache.Errors.{Error}
use task_management_api.Cache.Breaker.{
  CircuitBreaker, closed, opened, half_open, allow, record_failure, record_success, execute,
}

-- Every call of the run is asked for before the time `t`.
abbrev pub AskedBefore : Time → List (Time × Time) → Type 0
AskedBefore t [] = Unit {0}
AskedBefore t ((asked, _) ∷ ts) = (asked <ℤ t) × AskedBefore t ts

abbrev Refused : CircuitBreaker → List (Time × Time) → Type 0
Refused cb [] = Unit {0}
Refused cb ((asked, _) ∷ ts) = (allow cb asked ≡ false) × Refused cb ts

opened-Refused :
    (cb : CircuitBreaker) (ts : List (Time × Time))
    → cb.state ≡ opened
    → negsuc max_int64 <ℤ cb.timeout
    → AskedBefore (cb.last_failure_time +ℤ cb.timeout) ts
    → Refused cb ts
unfolding allow
opened-Refused cb [] s r h = tt
opened-Refused cb ((asked, done) ∷ ts) s r h = (
  ground (arith, sub_time_lt asked cb.last_failure_time cb.timeout r h.0),
  opened-Refused cb ts s r h.1,
)

locked-Refused :
    (cb : CircuitBreaker) (done : Time) (ts : List (Time × Time))
    → cb.state ≡ opened
    → cb.half_open_max_calls ≤ℤ pos 1
    → leb_ℤ cb.timeout (sub_time done cb.last_failure_time) ≡ true
    → Refused (record_success cb done) ts
unfolding record_success allow
locked-Refused cb done [] s k ready = tt
locked-Refused cb done ((asked, _) ∷ ts) s k ready =
    (ground arith, locked-Refused cb done ts s k ready)

module _ {ℓ} {W : Type ℓ} (fn : W → W × Option Error) where
  -- A call for each pair of clock readings.
  unfoldable pub execute_all : List (Time × Time) → CircuitBreaker → W → CircuitBreaker × W
  execute_all [] cb w = (cb, w)
  execute_all ((asked, done) ∷ ts) cb w =
      let (cb', w', _) = execute fn asked done cb w in execute_all ts cb' w'

  pub execute_all-append :
      (ts us : List (Time × Time)) (cb : CircuitBreaker) (w : W)
      → execute_all (ts ++ us) cb w ≡ execute_all us (execute_all ts cb w).0 (execute_all ts cb w).1
  unfolding execute_all
  execute_all-append [] us cb w = refl
  execute_all-append ((asked, done) ∷ ts) us cb w = execute_all-append ts us _ _

  -- Calls that are refused leave the breaker and the world of `fn` alone.
  refused :
      (ts : List (Time × Time)) (cb : CircuitBreaker) (w : W)
      → Refused cb ts
      → execute_all ts cb w ≡ (cb, w)
  unfolding execute_all execute
  refused [] cb w h = refl
  refused ((asked, done) ∷ ts) cb w h = rw h.0 (refused ts cb w h.1)

  -- While the timeout runs, an open breaker runs no call and stays as it is.
  pub opened_shields :
      (ts : List (Time × Time)) (cb : CircuitBreaker) (w : W)
      → cb.state ≡ opened
      → negsuc max_int64 <ℤ cb.timeout
      → AskedBefore (cb.last_failure_time +ℤ cb.timeout) ts
      → execute_all ts cb w ≡ (cb, w)
  opened_shields ts cb w s r h = refused ts cb w (opened-Refused cb ts s r h)

-- With a limit of one trial or none, the successful trial that should close an open breaker leaves
-- it half-open with no trial left: of calls that run one after the other from then on each is refused,
-- whenever they come. Calls that were let in before are not among them.
pub single_trial_locks {ℓ} :
    {W : Type ℓ} (fn : W → W × Option Error) (ts : List (Time × Time)) (cb : CircuitBreaker)
    (done : Time) (w : W)
    → cb.state ≡ opened
    → cb.half_open_max_calls ≤ℤ pos 1
    → cb.timeout ≤ℤ pos max_int64
    → cb.last_failure_time +ℤ cb.timeout ≤ℤ done
    → ((record_success cb done).state ≡ half_open)
      × (execute_all fn ts (record_success cb done) w ≡ (record_success cb done, w))
single_trial_locks fn ts cb done w s k r h =
    let ready = sub_time_ge done cb.last_failure_time cb.timeout r h in
    (
      unfold record_success in ground arith,
      refused fn ts (record_success cb done) w (locked-Refused cb done ts s k ready),
    )

-- A failure recorded while the breaker is not closed starts the timeout again: the breaker is open
-- and refuses each call that is asked for before the timeout has passed since that failure.
pub failure_restarts_timeout :
    (cb : CircuitBreaker) (done now : Time)
    → cb.state ≢ closed
    → negsuc max_int64 <ℤ cb.timeout
    → now <ℤ done +ℤ cb.timeout
    → ((record_failure cb done).state ≡ opened) × (allow (record_failure cb done) now ≡ false)
unfolding record_failure allow
failure_restarts_timeout cb done now s r h = ground (arith, sub_time_lt now done cb.timeout r h)
