-- ===== src/Cache/MultiLevel/Misses.antt =====
-- A key that Redis does not hold comes back from the call as an error, and the breaker counts it.
use task_management_api.Shared.{
  ℕ, suc, ◌+◌, ◌<◌, ◌≤◌, true, ◌≡◌, refl, none, some, List, [], ◌∷◌, Bytes, length, arith, subst,
}
use native.Mathlib.Nat.{add-zero}
use task_management_api.Shared.Int.{ℤ, pos, negsuc, inc, max_int64, sub_time_lt, ◌+ℤ◌, ◌<ℤ◌}
use task_management_api.Cache.Errors.{cache_miss}
use task_management_api.Cache.Values.{Dest, Json}
use task_management_api.Cache.Redis
use task_management_api.Cache.Redis.{Client, reply}
use task_management_api.Cache.SyncMap.{load}
use task_management_api.Cache.Memory
use task_management_api.Cache.Breaker.{closed, opened, allow, record_failure, execute}
use task_management_api.Cache.MultiLevel.{MultiLevelCache, Clock, get}

module _ {R J D : Type 0} (client : Client R J) (json : Json J D) where
  -- A `Get` for each key.
  pub get_all : List (Bytes × Dest × Clock) → MultiLevelCache R D → MultiLevelCache R D
  get_all [] c = c
  get_all ((key, dest, clock) ∷ gets) c = get_all gets (get client json c key dest clock).0

  record Counting (n m : ℕ) (d : ℤ) (c : MultiLevelCache R D) : Type 0 where
    empty : c.l1.store ≡ []
    present : (r : R) × (c.l2 ≡ some r)
    state : c.circuit_breaker.state ≡ closed
    count : c.circuit_breaker.failure_count ≡ pos n
    limit : c.circuit_breaker.max_failures ≡ pos m
    timeout : c.circuit_breaker.timeout ≡ d

  get_absent :
      (c : MultiLevelCache R D) (key : Bytes) (dest : Dest) (clock : Clock) (r : R)
      → c.l1.store ≡ []
      → c.l2 ≡ some r
      → allow c.circuit_breaker clock.asked ≡ true
      → (client.get r key).1 ≡ reply none
      → let c' = (get client json c key dest clock).0 in
        (c'.l1.store ≡ [])
        × (c'.l2 ≡ some (client.get r key).0)
        × (c'.circuit_breaker ≡ record_failure c.circuit_breaker clock.done)
  unfolding get Memory.get load execute Redis.get
  get_absent c key dest clock r s e a h = ground arith

  -- `Lacks` says which keys Redis does not hold, whatever is asked of it.
  module _ (Lacks : Bytes → Type 0)
      (absent : (r : R) (key : Bytes) → Lacks key → (client.get r key).1 ≡ reply none) where
    abbrev pub AllLacks : List (Bytes × Dest × Clock) → Type 0
    AllLacks [] = Unit {0}
    AllLacks ((key, _, _) ∷ gets) = Lacks key × AllLacks gets

    get-Counting :
        (c : MultiLevelCache R D) (key : Bytes) (dest : Dest) (clock : Clock) (n m : ℕ) (d : ℤ)
        → Lacks key
        → Counting n m d c
        → m ≤ max_int64
        → suc n < m
        → Counting (suc n) m d (get client json c key dest clock).0
    get-Counting c key dest clock n m d lacks k b h =
        let (r, e) = k.present in
        let (empty, present, breaker) =
          get_absent c key dest clock r k.empty e (unfold allow in ground (arith, k.state))
            (absent r key lacks) in
        record {
          empty = empty;
          present = ((client.get r key).0, present);
          state =
              rw breaker (unfold record_failure inc in ground (arith, k.state, k.count, k.limit));
          count =
              rw breaker (unfold record_failure inc in ground (arith, k.state, k.count, k.limit));
          limit =
              rw breaker (unfold record_failure inc in ground (arith, k.state, k.count, k.limit));
          timeout = rw breaker (unfold record_failure inc in ground (arith, k.state, k.timeout));
        }

    get_all-Counting :
        (gets : List (Bytes × Dest × Clock)) (c : MultiLevelCache R D) (n m : ℕ) (d : ℤ)
        → AllLacks gets
        → Counting n m d c
        → m ≤ max_int64
        → n + length gets < m
        → Counting (n + length gets) m d (get_all gets c)
    unfolding get_all
    get_all-Counting [] c n m d lacks k b h = rw add-zero k
    get_all-Counting ((key, dest, clock) ∷ gets) c n m d lacks k b h =
        let c' = (get client json c key dest clock).0 in
        let e : suc n + length gets ≡ n + suc (length gets) = omega arith in
        subst (λ i. Counting i m d (get_all gets c')) e
          (get_all-Counting gets c' (suc n) m d lacks.1
            (get-Counting c key dest clock n m d lacks.0 k b (omega arith)) b (omega arith))

    get_trips :
        (c : MultiLevelCache R D) (key : Bytes) (dest : Dest) (clock : Clock) (n m : ℕ) (d : ℤ)
        → Lacks key
        → Counting n m d c
        → m ≤ max_int64
        → suc n ≡ m
        → let c' = (get client json c key dest clock).0 in
          (c'.circuit_breaker.state ≡ opened)
          × (c'.circuit_breaker.last_failure_time ≡ clock.done)
          × (c'.circuit_breaker.timeout ≡ d)
          × (c'.l1.store ≡ [])
    get_trips c key dest clock n m d lacks k b h =
        let (r, e) = k.present in
        let (empty, present, breaker) =
          get_absent c key dest clock r k.empty e (unfold allow in ground (arith, k.state))
            (absent r key lacks) in
        (
          rw breaker (unfold record_failure inc in ground (arith, k.state, k.count, k.limit)),
          rw breaker (unfold record_failure inc in ground (arith, k.state, k.count, k.limit)),
          rw breaker (unfold record_failure inc in ground (arith, k.state, k.timeout)),
          empty,
        )

    get_shut_out :
        (c : MultiLevelCache R D) (key : Bytes) (dest : Dest) (clock : Clock)
        → c.circuit_breaker.state ≡ opened
        → negsuc max_int64 <ℤ c.circuit_breaker.timeout
        → c.l1.store ≡ []
        → clock.asked <ℤ c.circuit_breaker.last_failure_time +ℤ c.circuit_breaker.timeout
        → let (c', err) = get client json c key dest clock in
          (err ≡ some cache_miss) × (c'.l2 ≡ c.l2) × (c'.heap ≡ c.heap)
    unfolding get Memory.get load execute allow
    get_shut_out c key dest clock s r e h = ground (
      arith,
      sub_time_lt clock.asked c.circuit_breaker.last_failure_time c.circuit_breaker.timeout r h,
    )

    -- Reads of keys that are nowhere shut Redis out. Take an empty memory cache, a closed breaker
    -- that has counted no failure, and as many `Get`s as its limit, all of keys that Redis lacks:
    -- Redis answers each of them, and yet a `Get` of any key, asked for before the timeout has
    -- passed since the last, returns `ErrCacheMiss` without a call of Redis, which may well hold
    -- that key.
    pub misses_shut_out :
        (gets : List (Bytes × Dest × Clock)) (key key' : Bytes) (dest dest' : Dest)
        (clock clock' : Clock) (c : MultiLevelCache R D) (r : R)
        → AllLacks gets
        → Lacks key
        → c.l1.store ≡ []
        → c.l2 ≡ some r
        → c.circuit_breaker.state ≡ closed
        → c.circuit_breaker.failure_count ≡ pos 0
        → c.circuit_breaker.max_failures ≡ pos (suc (length gets))
        → suc (length gets) ≤ max_int64
        → negsuc max_int64 <ℤ c.circuit_breaker.timeout
        → clock'.asked <ℤ clock.done +ℤ c.circuit_breaker.timeout
        → let after_misses = (get client json (get_all gets c) key dest clock).0 in
          let (c', err) = get client json after_misses key' dest' clock' in
          (err ≡ some cache_miss) × (c'.l2 ≡ after_misses.l2) × (c'.heap ≡ after_misses.heap)
    misses_shut_out gets key key' dest dest' clock clock' c r lacks l e p s n m b t h =
        let m' = suc (length gets) in
        let d = c.circuit_breaker.timeout in
        let start : Counting 0 m' d c = record {
          empty = e;
          present = (r, p);
          state = s;
          count = n;
          limit = m;
          timeout = refl;
        } in
        let z : 0 + length gets ≡ length gets = omega arith in
        let counted : Counting (length gets) m' d (get_all gets c) =
          subst (λ i. Counting i m' d (get_all gets c)) z
            (get_all-Counting gets c 0 m' d lacks start b (omega arith)) in
        let (s', l', t', e') =
          get_trips (get_all gets c) key dest clock (length gets) m' d l counted b refl in
        get_shut_out (get client json (get_all gets c) key dest clock).0 key' dest' clock' s'
          (rw t' t) e' (rw (l', t') h)
