-- ===== src/Cache/Manager/Tests.antt =====
-- Managers of unified_cache_manager.go without Redis, over the package that keeps each queue sorted.
use task_management_api.Shared.{ℕ, ◌≡◌, refl, Bool, true, false, Option, none, some, [], ◌∷◌}
use task_management_api.Shared.Int.{pos}
use task_management_api.Cache.PriorityQueue.{pop}
use task_management_api.Cache.PriorityQueue.Sorted.{sorting}
use task_management_api.Cache.WorkerPool.{WorkerPool, Outcome, moved, panicked, blocked}
use task_management_api.Cache.WorkerPool.Workers.{worker}
use task_management_api.Cache.Warmer.Parts.{WarmupStrategy}
use task_management_api.Cache.Warmer.{CacheWarmer}
use task_management_api.Cache.Manager.{
  mode_auto, mode_legacy, mode_integrated, other_mode, determine_mode, IntegratedWarmer,
  UnifiedCacheManager, integrated, legacy, Result, new_unified_cache_manager, start, warmup_cache,
  update_stops, update_restarts,
}

needs_redis :
    (determine_mode mode_auto (some true) ≡ mode_integrated)
    × (determine_mode mode_integrated none ≡ mode_legacy)
    × (determine_mode (other_mode (pos 9)) (some true) ≡ mode_legacy)
unfolding determine_mode
needs_redis = (refl, refl, refl)

abbrev strategy : WarmupStrategy Bool ℕ
strategy = record {
  jobs = record { key = []; value = 3; ttl = pos 60; priority = pos 1 } ∷ [];
  batch_size = pos 2;
  concurrent_jobs = pos 1;
  warmup_interval = pos 300;
  health_check_func = none;
  use_worker_pool = true;
  use_scheduler = true;
}

-- An integrated warmer that does nothing, and is not used here.
abbrev unused : IntegratedWarmer Bool ℕ ℕ ℕ
unused = record {
  new = λ cache redis_client s. 0;
  start = λ iw. (iw, none);
  stop = λ iw. (iw, none);
  warmup_cache = λ iw. (iw, none);
  enqueue_warmup_job = λ iw job. (iw, none);
  enqueue_scheduled_warmup = λ iw job t. (iw, none);
  is_running = λ iw. true;
  with_strategy = λ iw s. iw;
}

abbrev Manager : Type 0
Manager = UnifiedCacheManager Bool ℕ ℕ ℕ

abbrev manager : Option Manager
manager =
    new_unified_cache_manager sorting unused none 0
      (some (record { mode = mode_auto; redis_client = none; strategy = some strategy }))

abbrev result_of : Result Bool ℕ ℕ ℕ → Option Manager
result_of none = none
result_of (some (m, err)) = some m

abbrev then_start : Option Manager → Option Manager
then_start none = none
then_start (some m) = result_of (start sorting unused m (pos 1))

abbrev then_warm : Option Manager → Option Manager
then_warm none = none
then_warm (some m) = result_of (warmup_cache sorting unused (λ i. false) m (pos 9))

-- The worker of the pool leaves at the closed channel.
abbrev pool_of : Outcome ℕ ℕ → Option (WorkerPool ℕ ℕ)
pool_of (moved wp o) = some wp
pool_of panicked = none
pool_of blocked = none

abbrev left : Option (WorkerPool ℕ ℕ) → Option (WorkerPool ℕ ℕ)
left none = none
left (some wp) = pool_of (worker false wp)

abbrev stopped_then : Option (CacheWarmer Bool ℕ ℕ × Bool) → Option Manager
stopped_then none = none
stopped_then (some (cw, false)) = result_of (update_restarts sorting cw false strategy (pos 5))
stopped_then (some (cw, true)) = result_of (
    update_restarts sorting (record cw { worker_pool = left cw.worker_pool }) true strategy (pos 5))

abbrev then_update : Option Manager → Option Manager
then_update none = none
then_update (some (integrated iw)) = none
then_update (some (legacy cw)) = stopped_then (update_stops cw)

abbrev runs : Option Manager → Bool
runs none = false
runs (some (integrated iw)) = false
runs (some (legacy cw)) = cw.running

-- A manager that was never started runs after `UpdateConfiguration`.
update_starts : (runs manager ≡ false) × (runs (then_update manager) ≡ true)
unfolding new_unified_cache_manager update_stops update_restarts
update_starts = (refl, refl)

-- After `UpdateConfiguration` of a manager that runs the next warm-up panics on the closed channel.
update_breaks :
    (runs (then_update (then_start manager)) ≡ true)
    × (then_warm (then_update (then_start manager)) ≡ none)
unfolding new_unified_cache_manager start update_stops update_restarts warmup_cache worker pop
update_breaks = (refl, refl)
