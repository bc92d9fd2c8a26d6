-- ===== src/Cache/Manager.antt =====
-- backend/internal/cache/unified_cache_manager.go: which warmer the manager uses, and what it does with
-- the warmer of warmer.go. The integrated warmer is an interface here, `I` being what it keeps. `none` is
-- a panic, or a wait for a mutex, of the warmer.
mod Tests
use task_management_api.Shared.{
  ◌++◌, Bool, true, false, not, Option, none, some, List, [], ◌∷◌, Bytes, bytes, if◌then◌else◌,
}
use task_management_api.Shared.Int.{ℤ, pos, Time}
use task_management_api.Cache.Jobs.{WarmupJob}
use task_management_api.Cache.PriorityQueue.{HeapPackage}
use task_management_api.Cache.Scheduler.{Coin}
use task_management_api.Cache.Warmer.Parts.{WarmupStrategy, default_strategy}
use task_management_api.Cache.Warmer.{
  CacheWarmer, new_cache_warmer, add_warmup_job, start as start_warmer, stop as stop_warmer,
  stop_waited, warm_cache_manually,
}

-- The values of `CacheWarmingMode`, and the integers that are none.
pub data CacheWarmingMode : Type 0 where
  mode_auto mode_legacy mode_integrated mode_local_only mode_distributed : CacheWarmingMode
  other_mode : ℤ → CacheWarmingMode

-- `redis_client` is whether a ping of it succeeds; the other fields are not read.
pub record CacheWarmingConfig (W D : Type 0) : Type 0 where
  pub mode : CacheWarmingMode
  pub redis_client : Option Bool
  pub strategy : Option (WarmupStrategy W D)

abbrev pub default_config : {W D : Type 0} → CacheWarmingConfig W D
default_config = record { mode = mode_auto; redis_client = none; strategy = some default_strategy }

abbrev in_auto_mode : Option Bool → CacheWarmingMode
in_auto_mode (some true) = mode_integrated
in_auto_mode (some false) = mode_legacy
in_auto_mode none = mode_legacy

abbrev with_redis : CacheWarmingMode → Option Bool → CacheWarmingMode
with_redis mode (some reachable) = mode
with_redis mode none = mode_legacy

unfoldable pub determine_mode : CacheWarmingMode → (redis_client : Option Bool) → CacheWarmingMode
determine_mode mode_legacy redis_client = mode_legacy
determine_mode mode_integrated redis_client = with_redis mode_integrated redis_client
determine_mode mode_local_only redis_client = with_redis mode_local_only redis_client
determine_mode mode_distributed redis_client = with_redis mode_distributed redis_client
determine_mode mode_auto redis_client = in_auto_mode redis_client
determine_mode (other_mode n) redis_client = mode_legacy

-- The operations of the integrated warmer, with the error of each.
pub record IntegratedWarmer (W S D I : Type 0) : Type 0 where
  pub new : S → Option Bool → Option (WarmupStrategy W D) → I
  pub start : I → I × Option Bytes
  pub stop : I → I × Option Bytes
  pub warmup_cache : I → I × Option Bytes
  pub enqueue_warmup_job : I → WarmupJob D → I × Option Bytes
  pub enqueue_scheduled_warmup : I → WarmupJob D → (process_at : Time) → I × Option Bytes
  pub is_running : I → Bool
  pub with_strategy : I → WarmupStrategy W D → I

-- `useIntegrated` says which of the two warmers there is.
pub data UnifiedCacheManager (W S D I : Type 0) : Type 0 where
  integrated : I → UnifiedCacheManager W S D I
  legacy : CacheWarmer W S D → UnifiedCacheManager W S D I

abbrev pub Result : (W S D I : Type 0) → Type 0
Result W S D I = Option (UnifiedCacheManager W S D I × Option Bytes)

abbrev by_integrated : {W S D I : Type 0} → I × Option Bytes → Result W S D I
by_integrated (iw, err) = some (integrated iw, err)

abbrev by_legacy : {W S D I : Type 0} → Option (CacheWarmer W S D) → Result W S D I
by_legacy none = none
by_legacy (some cw) = some (legacy cw, none)

abbrev legacy_manager :
    {W S D I : Type 0} → Option (CacheWarmer W S D) → Option (UnifiedCacheManager W S D I)
legacy_manager none = none
legacy_manager (some cw) = some (legacy cw)

abbrev config_of : {W D : Type 0} → Option (CacheWarmingConfig W D) → CacheWarmingConfig W D
config_of none = default_config
config_of (some config) = config

module _ {W S D I : Type 0} (heap : HeapPackage) (warmer : IntegratedWarmer W S D I) where
  unfoldable pub manager_of :
      CacheWarmingMode
      → (health : Option (W → Bool)) → S
      → CacheWarmingConfig W D
      → Option (UnifiedCacheManager W S D I)
  unfolding new_cache_warmer
  manager_of mode_legacy health cache config =
      legacy_manager (new_cache_warmer heap health cache config.strategy)
  manager_of mode health cache config =
      some (integrated (warmer.new cache config.redis_client config.strategy))

  unfoldable pub new_unified_cache_manager :
      (health : Option (W → Bool))
      → S
      → Option (CacheWarmingConfig W D)
      → Option (UnifiedCacheManager W S D I)
  unfolding determine_mode manager_of
  new_unified_cache_manager health cache config =
      let c = config_of config in manager_of (determine_mode c.mode c.redis_client) health cache c

  unfoldable pub start : UnifiedCacheManager W S D I → (now : Time) → Result W S D I
  unfolding start_warmer
  start (integrated iw) now = by_integrated (warmer.start iw)
  start (legacy cw) now = by_legacy (start_warmer heap cw now)

  unfoldable pub warmup_cache : Coin → UnifiedCacheManager W S D I → (now : Time) → Result W S D I
  unfolding warm_cache_manually
  warmup_cache coin (integrated iw) now = by_integrated (warmer.warmup_cache iw)
  warmup_cache coin (legacy cw) now = by_legacy (warm_cache_manually heap coin cw now)

  unfoldable pub enqueue_warmup_job : UnifiedCacheManager W S D I → WarmupJob D → Result W S D I
  unfolding add_warmup_job
  enqueue_warmup_job (integrated iw) job = by_integrated (warmer.enqueue_warmup_job iw job)
  enqueue_warmup_job (legacy cw) job = by_legacy (add_warmup_job heap cw job)

  -- Without Redis a scheduled job is added at once.
  unfoldable pub enqueue_scheduled_warmup :
      UnifiedCacheManager W S D I → WarmupJob D → (process_at : Time) → Result W S D I
  unfolding add_warmup_job
  enqueue_scheduled_warmup (integrated iw) job process_at =
      by_integrated (warmer.enqueue_scheduled_warmup iw job process_at)
  enqueue_scheduled_warmup (legacy cw) job process_at = by_legacy (add_warmup_job heap cw job)

  unfoldable pub schedule_periodic_warmup :
      UnifiedCacheManager W S D I → WarmupJob D → (next_run : Time) → Result W S D I
  unfolding enqueue_scheduled_warmup
  schedule_periodic_warmup (legacy cw) job next_run =
      some (legacy cw, some (bytes "periodic warmup requires integrated mode"))
  schedule_periodic_warmup (integrated iw) job next_run =
      enqueue_scheduled_warmup (integrated iw) (record job { priority = pos 3 }) next_run

  -- A manager with a warmer of warmer.go always says that it runs.
  unfoldable pub is_running : UnifiedCacheManager W S D I → Bool
  is_running (integrated iw) = warmer.is_running iw
  is_running (legacy cw) = true

module _ {W S D : Type 0} where
  -- `UpdateConfiguration` of a manager with a warmer of warmer.go, up to the wait of its `Stop`, and from
  -- there; the Boolean is that of `stop_warmer`.
  unfoldable pub update_stops : CacheWarmer W S D → Option (CacheWarmer W S D × Bool)
  unfolding stop_warmer
  update_stops cw = stop_warmer cw

  abbrev stopped : CacheWarmer W S D → (waits : Bool) → Option (CacheWarmer W S D)
  stopped cw false = some cw
  stopped cw true = stop_waited cw

module _ {W S D I : Type 0} (heap : HeapPackage) where
  abbrev restarted : Option (CacheWarmer W S D) → WarmupStrategy W D → (now : Time) → Result W S D I
  restarted none strategy now = none
  restarted (some cw) strategy now =
      by_legacy (start_warmer heap (record cw { strategy = strategy }) now)

  unfoldable pub update_restarts :
      CacheWarmer W S D → (waits : Bool) → WarmupStrategy W D → (now : Time) → Result W S D I
  unfolding stop_waited start_warmer
  update_restarts cw waits strategy now = restarted (stopped cw waits) strategy now
