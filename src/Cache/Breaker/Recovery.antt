-- ===== src/Cache/Breaker/Recovery.antt =====
-- Runs of calls that all succeed: the breaker of circuit_breaker.go recovers at its limit of trials.
use task_management_api.Shared.{
  ℕ, suc, ◌+◌, ◌<◌, ◌≡◌, true, Option, none, List, [], ◌∷◌, ◌++◌, length, arith, ◌≤◌, subst,
}
use native.Mathlib.Nat.{add-zero}
use task_management_api.Shared.Int.{
  pos, Time, ◌≤ℤ◌, ◌+ℤ◌, max_int64, inc, leb_ℤ, sub_time, sub_time_ge,
}
use task_management_api.Cache.Errors.{Error}
use task_management_api.Cache.Breaker.{
  CircuitBreaker, closed, opened, half_open, record_success, execute,
}
use task_management_api.Cache.Breaker.Runs.{execute_all, execute_all-append}

module _ {ℓ} {W : Type ℓ} (fn : W → W × Option Error) (succeeds : (w : W) → (fn w).1 ≡ none) where
  abbrev Trying : ℕ → ℕ → CircuitBreaker → Type 0
  Trying c k cb =
      (cb.state ≡ half_open) × (cb.success_count ≡ pos c) × (cb.half_open_max_calls ≡ pos k)

  execute_tries :
      (cb : CircuitBreaker) (asked done : Time) (w : W) (c k : ℕ)
      → Trying c k cb
      → k ≤ max_int64
      → suc c < k
      → Trying (suc c) k (execute fn asked done cb w).0
  unfolding execute record_success inc
  execute_tries cb asked done w c k s b h = ground (arith, succeeds w)

  execute_closes :
      (cb : CircuitBreaker) (asked done : Time) (w : W) (c k : ℕ)
      → Trying c k cb
      → k ≤ max_int64
      → suc c ≡ k
      → ((execute fn asked done cb w).0.state ≡ closed)
        × ((execute fn asked done cb w).0.failure_count ≡ pos 0)
  unfolding execute record_success inc
  execute_closes cb asked done w c k s b h = ground (arith, succeeds w)

  all_try :
      (ts : List (Time × Time)) (cb : CircuitBreaker) (w : W) (c k : ℕ)
      → Trying c k cb
      → k ≤ max_int64
      → c + length ts < k
      → Trying (c + length ts) k (execute_all fn ts cb w).0
  unfolding execute_all
  all_try [] cb w c k s b h = rw add-zero s
  all_try ((asked, done) ∷ ts) cb w c k s b h =
      let (cb', w', _) = execute fn asked done cb w in
      let e : suc c + length ts ≡ c + suc (length ts) = omega arith in
      subst (λ n. Trying n k (execute_all fn ts cb' w').0) e
        (all_try ts cb' w' (suc c) k (execute_tries cb asked done w c k s b (omega arith)) b
          (omega arith))

  execute_first_trial :
      (cb : CircuitBreaker) (asked done : Time) (w : W) (k : ℕ)
      → cb.state ≡ opened
      → cb.half_open_max_calls ≡ pos k
      → leb_ℤ cb.timeout (sub_time asked cb.last_failure_time) ≡ true
      → leb_ℤ cb.timeout (sub_time done cb.last_failure_time) ≡ true
      → Trying 1 k (execute fn asked done cb w).0
  unfolding execute record_success
  execute_first_trial cb asked done w k s e a d = ground (arith, succeeds w)

  -- An open breaker whose timeout has passed, run with calls that all succeed, for a limit of
  -- trials of at least two: it is half-open after the first call and all but the last of the
  -- trials, and the trial that reaches the limit closes it with no failure counted.
  pub recovers_at_limit :
      (ts : List (Time × Time)) (asked done asked' done' : Time) (cb : CircuitBreaker) (w : W)
      → cb.state ≡ opened
      → cb.half_open_max_calls ≡ pos (suc (suc (length ts)))
      → suc (suc (length ts)) ≤ max_int64
      → cb.timeout ≤ℤ pos max_int64
      → cb.last_failure_time +ℤ cb.timeout ≤ℤ asked
      → asked ≤ℤ done
      → let trials = (asked, done) ∷ ts in
        ((execute_all fn trials cb w).0.state ≡ half_open)
        × ((execute_all fn (trials ++ (asked', done') ∷ []) cb w).0.state ≡ closed)
        × ((execute_all fn (trials ++ (asked', done') ∷ []) cb w).0.failure_count ≡ pos 0)
  unfolding execute_all
  recovers_at_limit ts asked done asked' done' cb w s e b r h le =
      let k = suc (suc (length ts)) in
      let (cb', w', _) = execute fn asked done cb w in
      let ready = sub_time_ge asked cb.last_failure_time cb.timeout r h in
      let still = sub_time_ge done cb.last_failure_time cb.timeout r (omega arith) in
      let (s', n', m') =
        all_try ts cb' w' 1 k (execute_first_trial cb asked done w k s e ready still) b
          (omega arith) in
      let closes =
        execute_closes (execute_all fn ts cb' w').0 asked' done' (execute_all fn ts cb' w').1
          (1 + length ts) k (s', n', m') b (omega arith) in
      (s', rw (execute_all-append fn) (closes.0), rw (execute_all-append fn) (closes.1))
