-- ===== src/Cache/MultiLevel.antt =====
-- backend/internal/cache/multilevel.go: the memory cache before Redis, which stands behind the
-- circuit breaker. The state holds the variables of callers too, since the memory cache may keep
-- pointers to them. A method takes the clock readings that it makes, in their order.
pub mod Accounting
pub mod Reads
pub mod Misses
mod Tests
use task_management_api.Shared.{
  ℕ, Bool, true, false, Option, none, some, Bytes, if◌then◌else◌, ◌&&◌,
}
use task_management_api.Shared.Int.{ℤ, pos, Time}
use task_management_api.Cache.Errors.{
  Error, cache_miss, cache_down, circuit_breaker_open, too_many_requests, failed,
}
use task_management_api.Cache.Breaker.{
  CircuitBreaker, new_circuit_breaker, default_circuit_breaker_config, execute,
}
use task_management_api.Cache.Memory
use task_management_api.Cache.Memory.{MemoryCache}
use task_management_api.Cache.Metrics.{
  CacheMetrics, new_cache_metrics, record_hit, record_miss, record_error, record_set, record_delete,
}
use task_management_api.Cache.Values.{
  Heap, Value, pointer, Dest, not_pointer, nil_pointer, to, Json, copy_value,
}
use task_management_api.Cache.Redis
use task_management_api.Cache.Redis.{Client}

-- `l2` is `none` for a nil `RedisCache`. The warmer, which these methods do not use, is left out.
pub record MultiLevelCache (R D : Type 0) : Type 0 where
  pub l1 : MemoryCache (Value D)
  pub l2 : Option R
  pub metrics : CacheMetrics
  pub circuit_breaker : CircuitBreaker
  pub heap : Heap D

-- The readings of the clock: on entry, before and after the call of Redis, and at the refill.
pub record Clock : Type 0 where
  pub entered : Time
  pub asked : Time
  pub refilled : Time
  pub done : Time

abbrev pub is_miss : Error → Bool
is_miss cache_miss = true
is_miss cache_down = false
is_miss circuit_breaker_open = false
is_miss too_many_requests = false
is_miss (failed e) = false

-- `5*time.Minute`
abbrev pub refill_ttl : ℤ
refill_ttl = pos 300_000_000_000

-- `RecordError` for an error.
abbrev pub note_error : Option Error → CacheMetrics → CacheMetrics
note_error none m = m
note_error (some e) m = record_error m

-- `if err != nil && err != ErrCacheMiss { RecordError }`
abbrev pub note_failure : Option Error → CacheMetrics → CacheMetrics
note_failure none m = m
note_failure (some e) m = if is_miss e then m else record_error m

module _ {R D : Type 0} where
  unfoldable pub new_multi_level_cache : Option R → Heap D → Time → MultiLevelCache R D
  unfolding new_circuit_breaker
  new_multi_level_cache redis_cache heap now = record {
    l1 = Memory.new_memory_cache;
    l2 = redis_cache;
    metrics = new_cache_metrics now;
    circuit_breaker = new_circuit_breaker (some default_circuit_breaker_config);
    heap = heap;
  }

  -- The end of `Get`, after the call of Redis.
  abbrev pub conclude :
      MultiLevelCache R D → Bool → Option Error → MultiLevelCache R D × Option Error
  conclude c true none = (record c { metrics = record_hit c.metrics }, none)
  conclude c false none = (record c { metrics = record_miss c.metrics }, some cache_miss)
  conclude c l2_hit (some e) =
      (record c { metrics = record_miss (note_failure (some e) c.metrics) }, some cache_miss)

  abbrev pub conclude_l2 :
      MultiLevelCache R D
      → CircuitBreaker × (MemoryCache (Value D) × R × Heap D × Bool) × Option Error
      → MultiLevelCache R D × Option Error
  conclude_l2 c (cb, (l1, r, heap, l2_hit), err) =
      conclude (record c { l1 = l1; l2 = some r; heap = heap; circuit_breaker = cb }) l2_hit err

module _ {R J D : Type 0} (client : Client R J) (json : Json J D) where
  unfoldable pub set :
      MultiLevelCache R D → Bytes → Value D → ℤ → Clock → MultiLevelCache R D × Option Error
  unfolding execute
  set c key value ttl clock =
      let l1 = Memory.set c.l1 key value ttl clock.entered in
      let counted = record_set c.metrics in
      elim c.l2 [
        | none ↦ (record c { l1 = l1; metrics = counted }, none)
        | some r ↦
            let (cb, r', err) =
              execute (λ r. Redis.set client json r c.heap key value ttl) clock.asked clock.done
                c.circuit_breaker r in
            (
              record c {
                l1 = l1;
                l2 = some r';
                metrics = note_error err counted;
                circuit_breaker = cb;
              },
              none,
            )
      ]

  -- The call of Redis in `Get`, on the memory cache, Redis, the variables and `l2Hit`. A read into
  -- what is no pointer has failed before the refill.
  abbrev pub read_l2 :
      Bytes
      → Dest
      → Time
      → MemoryCache (Value D) × R × Heap D × Bool
      → (MemoryCache (Value D) × R × Heap D × Bool) × Option Error
  read_l2 key dest refilled (l1, r, heap, l2_hit) =
      let (r', heap', err) = Redis.get client json r heap key dest in
      elim err [
        | some e ↦ ((l1, r', heap', l2_hit), some e)
        | none ↦ elim dest [
          | to p ↦ ((Memory.set l1 key (pointer p) refill_ttl refilled, r', heap', true), none)
          | _ ↦ ((l1, r', heap', true), none)
        ]
      ]

  unfoldable pub get :
      MultiLevelCache R D → Bytes → Dest → Clock → MultiLevelCache R D × Option Error
  get c key dest clock =
      let (l1, found) = Memory.get c.l1 key clock.entered in
      elim found [
        | some value ↦
            let (heap, err) = copy_value json value dest c.heap in
            (record c { l1 = l1; metrics = record_hit c.metrics; heap = heap }, err)
        | none ↦ elim c.l2 [
          | none ↦ (record c { l1 = l1; metrics = record_miss c.metrics }, some cache_miss)
          | some r ↦ conclude_l2 c (
              execute (read_l2 key dest clock.refilled) clock.asked clock.done c.circuit_breaker
                (l1, r, c.heap, false))
        ]
      ]

module _ {R J D : Type 0} (client : Client R J) where
  unfoldable pub delete : MultiLevelCache R D → Bytes → Clock → MultiLevelCache R D × Option Error
  unfolding execute
  delete c key clock =
      let l1 = Memory.delete c.l1 key in
      let counted = record_delete c.metrics in
      elim c.l2 [
        | none ↦ (record c { l1 = l1; metrics = counted }, none)
        | some r ↦
            let (cb, r', err) =
              execute (λ r. Redis.delete client r key) clock.asked clock.done c.circuit_breaker r in
            (
              record c {
                l1 = l1;
                l2 = some r';
                metrics = note_error err counted;
                circuit_breaker = cb;
              },
              err,
            )
      ]

  -- Redis is called past the circuit breaker.
  unfoldable pub delete_pattern : MultiLevelCache R D → Bytes → MultiLevelCache R D × Option Error
  delete_pattern c pattern =
      let l1 = Memory.delete_pattern c.l1 pattern in
      elim c.l2 [
        | none ↦ (record c { l1 = l1 }, none)
        | some r ↦
            let (r', err) = Redis.delete_pattern client r pattern in
            (record c { l1 = l1; l2 = some r' }, err)
      ]

  unfoldable pub exists :
      MultiLevelCache R D → Bytes → Clock → MultiLevelCache R D × Bool × Option Error
  unfolding Memory.get
  exists c key clock =
      let (l1, found) = Memory.get c.l1 key clock.entered in
      elim found [
        | some value ↦ (record c { l1 = l1 }, true, none)
        | none ↦ elim c.l2 [
          | none ↦ (record c { l1 = l1 }, false, none)
          | some r ↦
              let (r', result, err) = Redis.exists client r key in
              (record c { l1 = l1; l2 = some r' }, result, err)
        ]
      ]

  unfoldable pub health : MultiLevelCache R D → MultiLevelCache R D × Option Error
  health c = elim c.l2 [
    | none ↦ (c, none)
    | some r ↦ let (r', err) = Redis.health client r in (record c { l2 = some r' }, err)
  ]
