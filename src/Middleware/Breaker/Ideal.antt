-- ===== src/Middleware/Breaker/Ideal.antt =====
-- What the circuit breaker of rate_limiter.go is for one caller at a time: a count of failures in a
-- row, or a wait. The half-open state is not seen from outside.
use task_management_api.Shared.{
  ◌≡◌, refl, true, false, inl, inr, Option, none, some, List, [], ◌∷◌, Bytes, bytes, bytes_eq,
  bytes_eq_iff, arith, if◌then◌else◌, ap, ◌∙◌, ◌⊎◌,
}
use task_management_api.Shared.Int.{ℤ, pos, Time, inc, ltb_ℤ, leb_ℤ, sub_time}
use task_management_api.Middleware.Breaker.{
  CircuitBreaker, new_circuit_breaker, straight, probe, refused, admission, begin_probe, conclude,
  call,
}

pub data Counter : Type 0 where
  counting : ℤ → Counter
  waiting : Time → Counter

-- A failure counts, and starts a wait at the limit; a success starts over.
unfoldable pub counted : (max_failures : ℤ) → (n : ℤ) → (done : Time) → Option Bytes → Counter
counted max_failures n done none = counting (pos 0)
counted max_failures n done (some e) =
    if leb_ℤ max_failures (inc n) then waiting done else counting (inc n)

abbrev pub view : CircuitBreaker → Counter
view cb = if bytes_eq cb.state (bytes "open") then waiting cb.last_failure else counting cb.failures

conclude-counted :
    (cb : CircuitBreaker) (done : Time) (err : Option Bytes)
    → bytes_eq cb.state (bytes "open") ≡ false
    → view (conclude cb done err) ≡ counted cb.max_failures cb.failures done err
unfolding conclude counted
conclude-counted cb done none h = ground (arith, bytes_eq_iff (bytes "closed") (bytes "open"))
conclude-counted cb done (some e) h = ground (arith, bytes_eq_iff (bytes "open") (bytes "open"))

conclude-limits :
    (cb : CircuitBreaker) (done : Time) (err : Option Bytes)
    → ((conclude cb done err).max_failures ≡ cb.max_failures)
      × ((conclude cb done err).reset_time ≡ cb.reset_time)
unfolding conclude
conclude-limits cb done none = (refl, refl)
conclude-limits cb done (some e) = ground arith

admission-cases :
    (cb : CircuitBreaker) (now : Time)
    → ((admission cb now ≡ straight) × (bytes_eq cb.state (bytes "open") ≡ false))
      ⊎ ((admission cb now ≡ probe)
          × (bytes_eq cb.state (bytes "open") ≡ true)
          × (ltb_ℤ cb.reset_time (sub_time now cb.last_failure) ≡ true))
      ⊎ ((admission cb now ≡ refused)
          × (bytes_eq cb.state (bytes "open") ≡ true)
          × (ltb_ℤ cb.reset_time (sub_time now cb.last_failure) ≡ false))
unfolding admission
admission-cases cb now = ground arith

half_open_counts : bytes_eq (bytes "half-open") (bytes "open") ≡ false
unfolding bytes_eq
half_open_counts = refl

module _ {ℓ} {W : Type ℓ} (fn : W → W × Option Bytes) where
  -- A wait that has lasted longer than the reset time is over.
  unfoldable pub counter_call :
      (max_failures reset_time : ℤ) → (asked done : Time) → Counter → W → Counter × W × Option Bytes
  unfolding counted
  counter_call m r asked done (counting n) w =
      let (w', err) = fn w in (counted m n done err, w', err)
  counter_call m r asked done (waiting since) w =
      if ltb_ℤ r (sub_time asked since)
      then (let (w', err) = fn w in (counted m (pos 0) done err, w', err))
      else (waiting since, w, some (bytes "circuit breaker is open"))

  -- The errors of a run of calls, one for each pair of clock readings, and the last world.
  unfoldable pub counter_replies :
      (max_failures reset_time : ℤ) → List (Time × Time) → Counter → W → List (Option Bytes) × W
  counter_replies m r [] i w = ([], w)
  counter_replies m r ((asked, done) ∷ ts) i w =
      let (i', w', err) = counter_call m r asked done i w in
      let (errs, last) = counter_replies m r ts i' w' in (err ∷ errs, last)

  unfoldable pub replies : List (Time × Time) → CircuitBreaker → W → List (Option Bytes) × W
  replies [] cb w = ([], w)
  replies ((asked, done) ∷ ts) cb w =
      let (cb', w', err) = call fn asked done cb w in
      let (errs, last) = replies ts cb' w' in (err ∷ errs, last)

  -- A call that is let through, on a breaker that is not open.
  run-counter :
      (cb : CircuitBreaker) (done : Time) (w : W)
      → bytes_eq cb.state (bytes "open") ≡ false
      → ◌≡◌ {A = Counter × W × Option Bytes}
          (view (conclude cb done (fn w).1), (fn w).0, (fn w).1)
          (counted cb.max_failures cb.failures done (fn w).1, (fn w).0, (fn w).1)
  run-counter cb done w h = ap (λ v. (v, (fn w).0, (fn w).1)) (conclude-counted cb done (fn w).1 h)

  call-limits :
      (asked done : Time) (cb : CircuitBreaker) (w : W)
      → ((call fn asked done cb w).0.max_failures ≡ cb.max_failures)
        × ((call fn asked done cb w).0.reset_time ≡ cb.reset_time)
  unfolding call begin_probe
  call-limits asked done cb w = elim (admission-cases cb asked) [
    | inl (a, h) ↦ rw (call, a) (conclude-limits cb done (fn w).1)
    | inr (inl (a, h, k)) ↦ rw (call, a) (conclude-limits (begin_probe cb) done (fn w).1)
    | inr (inr (a, h, k)) ↦ rw (call, a) (refl, refl)
  ]

  call-counter :
      (asked done : Time) (cb : CircuitBreaker) (w : W)
      → ◌≡◌ {A = Counter × W × Option Bytes}
          (
            view (call fn asked done cb w).0,
            (call fn asked done cb w).1,
            (call fn asked done cb w).2,
          )
          (counter_call cb.max_failures cb.reset_time asked done (view cb) w)
  unfolding call begin_probe counter_call
  call-counter asked done cb w = elim (admission-cases cb asked) [
    | inl (a, h) ↦ rw (call, a, h) (run-counter cb done w h)
    | inr (inl (a, h, k)) ↦
        rw (call, a, h, k) (run-counter (begin_probe cb) done w half_open_counts)
    | inr (inr (a, h, k)) ↦ rw (call, a, h, k) refl
  ]

  replies-view :
      (m r : ℤ) (ts : List (Time × Time)) (cb : CircuitBreaker) (w : W)
      → cb.max_failures ≡ m
      → cb.reset_time ≡ r
      → replies ts cb w ≡ counter_replies m r ts (view cb) w
  unfolding replies counter_replies
  replies-view m r [] cb w em er = refl
  replies-view m r ((asked, done) ∷ ts) cb w em er =
      let (lm, lr) = call-limits asked done cb w in
      let (cb', w', err) = call fn asked done cb w in
      let step : Counter × W × Option Bytes → List (Option Bytes) × W =
        λ (i, v, e). (e ∷ (counter_replies m r ts i v).0, (counter_replies m r ts i v).1) in
      ap (λ (errs : List (Option Bytes) × W). (err ∷ errs.0, errs.1))
        (replies-view m r ts cb' w' (lm ∙ em) (lr ∙ er))
      ∙ ap step (rw (← em, ← er) (call-counter asked done cb w))

  -- A new breaker, called by one caller at a time, replies to every run of calls as a count of the
  -- failures in a row that at the limit becomes a wait: the half-open state makes no difference, and
  -- after the wait the count starts at zero.
  pub replies-counter_replies :
      (max_failures reset_time : ℤ) (ts : List (Time × Time)) (w : W)
      → replies ts (new_circuit_breaker max_failures reset_time) w
        ≡ counter_replies max_failures reset_time ts (counting (pos 0)) w
  unfolding new_circuit_breaker bytes_eq
  replies-counter_replies m r ts w = replies-view m r ts (new_circuit_breaker m r) w refl refl
