-- ===== src/Cache/MultiLevel/Accounting.antt =====
-- The counters of hits and misses.
use task_management_api.Shared.{
  Bool, true, false, ◌≡◌, ◌≢◌, refl, ◌⊎◌, inl, inr, Option, none, some, Bytes, arith, Option-cases,
}
use task_management_api.Shared.Int.{inc}
use task_management_api.Cache.Errors.{Error, cache_miss}
use task_management_api.Cache.Values.{Heap, Value, Dest, Json, copy_value}
use task_management_api.Cache.Redis.{Client}
use task_management_api.Cache.Memory
use task_management_api.Cache.Memory.{MemoryCache}
use task_management_api.Cache.Breaker.{CircuitBreaker, execute}
use task_management_api.Cache.MultiLevel.{
  MultiLevelCache, Clock, get, conclude, conclude_l2, read_l2,
}

-- One hit more and no miss, and another result than `ErrCacheMiss`; or the other way round.
abbrev pub Counted :
    {R D : Type 0} → MultiLevelCache R D → MultiLevelCache R D × Option Error → Type 0
Counted c (c', err) =
    ((c'.metrics.hits ≡ inc c.metrics.hits)
      × (c'.metrics.misses ≡ c.metrics.misses)
      × (err ≢ some cache_miss))
    ⊎ ((c'.metrics.hits ≡ c.metrics.hits)
        × (c'.metrics.misses ≡ inc c.metrics.misses)
        × (err ≡ some cache_miss))

conclude-Counted :
    {R D : Type 0} (c : MultiLevelCache R D) (l2_hit : Bool) (err : Option Error)
    → Counted c (conclude c l2_hit err)
conclude-Counted c true none = inl (refl, refl, λ e. cc)
conclude-Counted c false none = inr (refl, refl, refl)
conclude-Counted c true (some e) = inr (ground arith)
conclude-Counted c false (some e) = inr (ground arith)

conclude_l2-Counted :
    {R D : Type 0} (c : MultiLevelCache R D)
    (t : CircuitBreaker × (MemoryCache (Value D) × R × Heap D × Bool) × Option Error)
    → Counted c (conclude_l2 c t)
conclude_l2-Counted c (cb, (l1, r, heap, l2_hit), err) =
    conclude-Counted (record c { l1 = l1; l2 = some r; heap = heap; circuit_breaker = cb }) l2_hit
      err

module _ {R J D : Type 0} (client : Client R J) (json : Json J D) where
  copy_value-ne-miss :
      (src : Value D) (dest : Dest) (heap : Heap D)
      → (copy_value json src dest heap).1 ≢ some cache_miss
  unfolding copy_value
  copy_value-ne-miss src dest heap = ground arith

  -- Every `Get` counts either one hit or one miss, whatever the levels, the breaker and the
  -- decoding do; it counts a miss exactly when it returns `ErrCacheMiss`.
  pub get-Counted :
      (c : MultiLevelCache R D) (key : Bytes) (dest : Dest) (clock : Clock)
      → Counted c (get client json c key dest clock)
  unfolding get
  get-Counted c key dest clock = elim (Option-cases (Memory.get c.l1 key clock.entered).1) [
    | inl miss ↦ elim (Option-cases c.l2) [
      | inl e ↦ rw (miss, get) (rw (e, get) (inr (refl, refl, refl)))
      | inr (r, e) ↦
          rw (miss, get)
            (rw (e, get)
              (conclude_l2-Counted c (
                execute (read_l2 client json key dest clock.refilled) clock.asked clock.done
                  c.circuit_breaker ((Memory.get c.l1 key clock.entered).0, r, c.heap, false))))
    ]
    | inr (value, hit) ↦ rw (hit, get) (inl (refl, refl, copy_value-ne-miss value dest c.heap))
  ]
