-- ===== src/Cache/Warmer.antt =====
-- backend/internal/cache/warmer.go: the warmer over its queue, its worker pool and its scheduler. `W` is
-- what health checks read, `S` the cache; a warmer with a pool warms the cache of the pool. The queue is
-- never nil after `NewCacheWarmer`, so that the branches for a nil one are left out. `none` is a panic,
-- or a wait for the mutex that `Stop` of the pool holds.
pub mod Parts
pub mod Helpers
pub mod Turns
pub mod Shares
pub mod Order
pub mod Ends
pub mod Rounds
pub mod Slices
pub mod Warmed
pub mod Handed
mod Tests
mod Lifecycle
use task_management_api.Shared.{
  ℕ, suc, ◌+◌, ◌==◌, ◌&&◌, Bool, true, false, not, Option, none, some, List, [], ◌∷◌, length, bytes,
  if◌then◌else◌,
}
use task_management_api.Shared.Int.{ℤ, pos, Time, ltb_ℤ}
use task_management_api.Cache.Jobs.{WarmupJob}
use task_management_api.Cache.PriorityQueue.{
  HeapPackage, PriorityQueue, new_priority_queue, push, len, get_jobs,
}
use task_management_api.Cache.WorkerPool.{
  WorkerPool, Outcome, moved, panicked, blocked, new_worker_pool, submit_jobs,
}
use task_management_api.Cache.WorkerPool as Pool
use task_management_api.Cache.WorkerPool.Workers.{CacheSet}
use task_management_api.Cache.Scheduler.{
  JobScheduler, Coin, with_coins, new_job_scheduler, add_interval_trigger, schedule_job,
  schedule_jobs, process_scheduled_jobs,
}
use task_management_api.Cache.Scheduler as Scheduler
use Parts.{
  WarmupStrategy, strategy_of, first_queue, first_scheduler, scheduled, scheduler_stopped,
  pool_stopped, pool_waited,
}
use Helpers.{Turn}
use Rounds.{Warming, completed, was_cancelled, waits, goes_on, warm_directly}
use Rounds

-- `warm_ups` and `tickers` count the goroutines that run `warmCache` and its clock.
pub record CacheWarmer (W S D : Type 0) : Type 0 where
  pub cache : S
  pub strategy : WarmupStrategy W D
  pub running : Bool
  pub stop_closed : Bool
  pub worker_pool : Option (WorkerPool S D)
  pub scheduler : Option (JobScheduler W D)
  pub priority_queue : PriorityQueue D
  pub warm_ups : ℕ
  pub tickers : ℕ

pub record Stats : Type 0 where
  pub running : Bool
  pub interval : ℤ
  pub total_jobs : ℕ
  pub batch_size : ℤ
  pub concurrent_jobs : ℤ
  pub use_worker_pool : Bool
  pub use_scheduler : Bool
  pub worker_pool : Option Pool.Stats
  pub scheduler : Option Scheduler.Stats
  pub priority_queue_size : ℕ

module _ {W S D : Type 0} where
  -- The goroutines of a warmer that warms the cache itself.
  unfoldable pub warming_up : CacheWarmer W S D → CacheWarmer W S D
  warming_up cw = record cw {
    warm_ups = suc cw.warm_ups;
    tickers = if ltb_ℤ (pos 0) cw.strategy.warmup_interval then suc cw.tickers else cw.tickers;
  }

  unfoldable pub handed : CacheWarmer W S D → Option (JobScheduler W D) → Option (CacheWarmer W S D)
  handed cw none = none
  handed cw (some js) = some (record cw { scheduler = some js })

  unfoldable pub pool_started : Outcome S D → CacheWarmer W S D → Option (CacheWarmer W S D)
  pool_started (moved wp o) cw = some (record cw { worker_pool = some wp })
  pool_started panicked cw = none
  pool_started blocked cw = none

  unfoldable pub with_pool_started :
      Option (WorkerPool S D) → CacheWarmer W S D → Option (CacheWarmer W S D)
  unfolding Pool.start pool_started
  with_pool_started none cw = some cw
  with_pool_started (some wp) cw = pool_started (Pool.start wp) cw

module _ {W S D : Type 0} (heap : HeapPackage) where
  unfoldable pub warmer_of :
      S
      → WarmupStrategy W D
      → Option (Option (JobScheduler W D))
      → Option (PriorityQueue D)
      → Option (CacheWarmer W S D)
  unfolding new_worker_pool
  warmer_of cache strategy none pq = none
  warmer_of cache strategy (some js) none = none
  warmer_of cache strategy (some js) (some pq) = some (record {
    cache = cache;
    strategy = strategy;
    running = false;
    stop_closed = false;
    worker_pool =
        if strategy.use_worker_pool
        then some (new_worker_pool strategy.concurrent_jobs cache)
        else none;
    scheduler = js;
    priority_queue = pq;
    warm_ups = 0;
    tickers = 0;
  })

  unfoldable pub new_cache_warmer :
      (health : Option (W → Bool)) → S → Option (WarmupStrategy W D) → Option (CacheWarmer W S D)
  unfolding strategy_of first_scheduler first_queue warmer_of
  new_cache_warmer health cache strategy =
      let s = strategy_of strategy in
      warmer_of cache s (first_scheduler heap health s s.use_scheduler) (first_queue heap s.jobs)

  unfoldable pub added :
      CacheWarmer W S D
      → Option (PriorityQueue D)
      → Option (Option (JobScheduler W D))
      → Option (CacheWarmer W S D)
  added cw none js = none
  added cw (some pq) none = none
  added cw (some pq) (some js) = some (record cw { priority_queue = pq; scheduler = js })

  unfoldable pub add_warmup_job : CacheWarmer W S D → WarmupJob D → Option (CacheWarmer W S D)
  unfolding push scheduled added
  add_warmup_job cw job =
      added cw (push heap cw.priority_queue job) (scheduled heap cw.scheduler job)

  -- What `Start` does once the pool runs, with the scheduler.
  unfoldable pub started_with :
      CacheWarmer W S D → (now : Time) → Option (JobScheduler W D) → Option (CacheWarmer W S D)
  unfolding Scheduler.start schedule_jobs get_jobs handed warming_up
  started_with cw now none = some (warming_up cw)
  started_with cw now (some js) =
      if cw.strategy.use_scheduler
      then handed cw (schedule_jobs heap (get_jobs cw.priority_queue) (Scheduler.start js now))
      else some (warming_up (record cw { scheduler = some (Scheduler.start js now) }))

  unfoldable pub begun : Option (CacheWarmer W S D) → (now : Time) → Option (CacheWarmer W S D)
  unfolding started_with
  begun none now = none
  begun (some cw) now = started_with cw now cw.scheduler

  unfoldable pub start : CacheWarmer W S D → (now : Time) → Option (CacheWarmer W S D)
  unfolding with_pool_started begun
  start cw now =
      if cw.running
      then some cw
      else begun (with_pool_started cw.worker_pool (record cw { running = true })) now

module _ {W S D : Type 0} where
  -- `Stop`, up to the wait of the pool's `Stop`, and from there; the Boolean says whether it goes on.
  unfoldable pub stop : CacheWarmer W S D → Option (CacheWarmer W S D × Bool)
  unfolding scheduler_stopped pool_stopped
  stop cw = if not cw.running then some (cw, false) else elim (pool_stopped cw.worker_pool) [
    | none ↦ none
    | some wp ↦ some (
      record cw { running = false; scheduler = scheduler_stopped cw.scheduler; worker_pool = wp },
      true,
    )
  ]

  unfoldable pub stop_waited : CacheWarmer W S D → Option (CacheWarmer W S D)
  unfolding pool_waited
  stop_waited cw = elim (pool_waited cw.worker_pool) [
    | none ↦ none
    | some wp ↦
        if cw.stop_closed then none else some (record cw { worker_pool = wp; stop_closed = true })
  ]

  -- The cache of the warmer after a warm-up of its own.
  unfoldable pub with_cache : CacheWarmer W S D → Warming S → Warming (CacheWarmer W S D)
  with_cache cw (completed cache) = completed (record cw { cache = cache })
  with_cache cw (was_cancelled cache) = was_cancelled (record cw { cache = cache })
  with_cache cw (waits cache) = waits (record cw { cache = cache })
  with_cache cw (goes_on cache) = goes_on (record cw { cache = cache })
  with_cache cw Rounds.panicked = Rounds.panicked

  unfoldable pub jobs_submitted :
      CacheWarmer W S D → Option (WorkerPool S D × ℕ) → Warming (CacheWarmer W S D)
  jobs_submitted cw none = Rounds.panicked
  jobs_submitted cw (some (wp, n)) = completed (record cw { worker_pool = some wp })

  -- Where the jobs of `warmCache` go: the pool, if there is one to use.
  unfoldable pub warm_with :
      CacheSet S D
      → Coin
      → List (List Turn)
      → CacheWarmer W S D
      → List (WarmupJob D)
      → (pool : Option (WorkerPool S D)) → (use_worker_pool : Bool) → Warming (CacheWarmer W S D)
  unfolding with_coins submit_jobs jobs_submitted with_cache warm_directly
  warm_with set coin schedule cw jobs (some wp) true =
      jobs_submitted cw (submit_jobs (with_coins coin 0 jobs) wp 0)
  warm_with set coin schedule cw jobs (some wp) false =
      with_cache cw (
        warm_directly set schedule jobs cw.strategy.batch_size cw.strategy.concurrent_jobs cw.cache)
  warm_with set coin schedule cw jobs none use_worker_pool =
      with_cache cw (
        warm_directly set schedule jobs cw.strategy.batch_size cw.strategy.concurrent_jobs cw.cache)

  unfoldable pub warm_cache :
      CacheSet S D → Coin → List (List Turn) → CacheWarmer W S D → Warming (CacheWarmer W S D)
  unfolding get_jobs warm_with
  warm_cache set coin schedule cw =
      let jobs = get_jobs cw.priority_queue in
      if length jobs == 0
      then completed cw
      else warm_with set coin schedule cw jobs cw.worker_pool cw.strategy.use_worker_pool

  unfoldable pub get_stats : CacheWarmer W S D → Stats
  unfolding len Pool.get_stats Scheduler.get_stats
  get_stats cw = record {
    running = cw.running;
    interval = cw.strategy.warmup_interval;
    total_jobs = length cw.strategy.jobs + len cw.priority_queue;
    batch_size = cw.strategy.batch_size;
    concurrent_jobs = cw.strategy.concurrent_jobs;
    use_worker_pool = cw.strategy.use_worker_pool;
    use_scheduler = cw.strategy.use_scheduler;
    worker_pool = elim cw.worker_pool [ none ↦ none | some wp ↦ some (Pool.get_stats wp) ];
    scheduler = elim cw.scheduler [ none ↦ none | some js ↦ some (Scheduler.get_stats js) ];
    priority_queue_size = len cw.priority_queue;
  }

module _ {W S D : Type 0} (heap : HeapPackage) where
  unfoldable pub jobs_processed :
      CacheWarmer W S D
      → Option (JobScheduler W D × Option (WorkerPool S D) × ℕ)
      → Option (CacheWarmer W S D)
  jobs_processed cw none = none
  jobs_processed cw (some (js, wp, n)) = some (record cw { scheduler = some js; worker_pool = wp })

  unfoldable pub warm_through :
      Coin
      → CacheWarmer W S D
      → (now : Time) → Option (JobScheduler W D)
      → Option (CacheWarmer W S D)
  unfolding process_scheduled_jobs jobs_processed
  warm_through coin cw now none = some (record cw { warm_ups = suc cw.warm_ups })
  warm_through coin cw now (some js) =
      jobs_processed cw (process_scheduled_jobs heap coin js cw.worker_pool now)

  unfoldable pub warm_cache_manually :
      Coin → CacheWarmer W S D → (now : Time) → Option (CacheWarmer W S D)
  unfolding warm_through
  warm_cache_manually coin cw now =
      if cw.strategy.use_scheduler
      then warm_through coin cw now cw.scheduler
      else some (record cw { warm_ups = suc cw.warm_ups })
