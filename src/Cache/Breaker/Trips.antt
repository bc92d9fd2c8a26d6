-- ===== src/Cache/Breaker/Trips.antt =====
-- Runs of calls that all fail: the breaker of circuit_breaker.go trips at its limit.
use task_management_api.Shared.{
  ℕ, suc, ◌+◌, ◌<◌, ◌≡◌, refl, Option, some, List, [], ◌∷◌, ◌++◌, length, arith, ◌≤◌, subst,
}
use native.Mathlib.Nat.{add-zero, zero-add}
use task_management_api.Shared.Int.{pos, Time, max_int64, inc}
use task_management_api.Cache.Errors.{Error}
use task_management_api.Cache.Breaker.{CircuitBreaker, closed, opened, record_failure, execute}
use task_management_api.Cache.Breaker.Runs.{execute_all, execute_all-append}

module _ {ℓ} {W : Type ℓ} (fn : W → W × Option Error)
    (fails : (w : W) → (e : Error) × ((fn w).1 ≡ some e)) where
  abbrev Counting : ℕ → ℕ → CircuitBreaker → Type 0
  Counting c m cb = (cb.state ≡ closed) × (cb.failure_count ≡ pos c) × (cb.max_failures ≡ pos m)

  execute_counts :
      (cb : CircuitBreaker) (asked done : Time) (w : W) (c m : ℕ)
      → Counting c m cb
      → m ≤ max_int64
      → suc c < m
      → Counting (suc c) m (execute fn asked done cb w).0
  unfolding execute record_failure inc
  execute_counts cb asked done w c m s b h = ground (arith, fails w)

  execute_trips :
      (cb : CircuitBreaker) (asked done : Time) (w : W) (c m : ℕ)
      → Counting c m cb
      → m ≤ max_int64
      → suc c ≡ m
      → ((execute fn asked done cb w).0.state ≡ opened)
        × ((execute fn asked done cb w).0.last_failure_time ≡ done)
  unfolding execute record_failure inc
  execute_trips cb asked done w c m s b h = ground (arith, fails w)

  all_count :
      (ts : List (Time × Time)) (cb : CircuitBreaker) (w : W) (c m : ℕ)
      → Counting c m cb
      → m ≤ max_int64
      → c + length ts < m
      → Counting (c + length ts) m (execute_all fn ts cb w).0
  unfolding execute_all
  all_count [] cb w c m s b h = rw add-zero s
  all_count ((asked, done) ∷ ts) cb w c m s b h =
      let (cb', w', _) = execute fn asked done cb w in
      let e : suc c + length ts ≡ c + suc (length ts) = omega arith in
      subst (λ k. Counting k m (execute_all fn ts cb' w').0) e
        (all_count ts cb' w' (suc c) m (execute_counts cb asked done w c m s b (omega arith)) b
          (omega arith))

  -- A closed breaker with no failure counted, run with calls that all fail: while they are fewer
  -- than the limit it stays closed and counts them, and the call that reaches the limit opens it
  -- and notes the time.
  pub trips_at_limit :
      (ts : List (Time × Time)) (asked done : Time) (cb : CircuitBreaker) (w : W)
      → cb.state ≡ closed
      → cb.failure_count ≡ pos 0
      → cb.max_failures ≡ pos (suc (length ts))
      → suc (length ts) ≤ max_int64
      → ((execute_all fn ts cb w).0.state ≡ closed)
        × ((execute_all fn ts cb w).0.failure_count ≡ pos (length ts))
        × ((execute_all fn (ts ++ (asked, done) ∷ []) cb w).0.state ≡ opened)
        × ((execute_all fn (ts ++ (asked, done) ∷ []) cb w).0.last_failure_time ≡ done)
  trips_at_limit ts asked done cb w s f m b =
      let (s', f', m') =
        rw zero-add at (all_count ts cb w 0 (suc (length ts)) (s, f, m) b (omega arith)) in
      let tripped =
        execute_trips (execute_all fn ts cb w).0 asked done (execute_all fn ts cb w).1 (length ts)
          (suc (length ts)) (s', f', m') b refl in
      (
        s',
        f',
        rw (execute_all-append fn) (unfold execute_all in tripped.0),
        rw (execute_all-append fn) (unfold execute_all in tripped.1),
      )
