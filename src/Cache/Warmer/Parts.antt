-- ===== src/Cache/Warmer/Parts.antt =====
-- The parts of the warmer of backend/internal/cache/warmer.go: its strategy, and what it does to its
-- queue, its scheduler and its worker pool.
use task_management_api.Shared.{
  Bool, true, false, not, Option, none, some, List, [], ◌∷◌, bytes, if◌then◌else◌,
}
use task_management_api.Shared.Int.{ℤ, pos, ltb_ℤ}
use task_management_api.Cache.Jobs.{WarmupJob}
use task_management_api.Cache.PriorityQueue.{HeapPackage, PriorityQueue, new_priority_queue, push}
use task_management_api.Cache.WorkerPool.{WorkerPool, moved, panicked, blocked}
use task_management_api.Cache.WorkerPool as Pool
use task_management_api.Cache.Scheduler.{
  JobScheduler, new_job_scheduler, add_interval_trigger, schedule_job,
}
use task_management_api.Cache.Scheduler as Scheduler

pub record WarmupStrategy (W D : Type 0) : Type 0 where
  pub jobs : List (WarmupJob D)
  pub batch_size : ℤ
  pub concurrent_jobs : ℤ
  pub warmup_interval : ℤ
  pub health_check_func : Option (W → Bool)
  pub use_worker_pool : Bool
  pub use_scheduler : Bool

abbrev pub default_strategy : {W D : Type 0} → WarmupStrategy W D
default_strategy = record {
  jobs = [];
  batch_size = pos 10;
  concurrent_jobs = pos 3;
  warmup_interval = pos 300_000_000_000;
  health_check_func = none;
  use_worker_pool = true;
  use_scheduler = true;
}

-- `health` is there where the cache has a method `Health`, and says whether that finds no error.
unfoldable pub should_warmup :
    {W : Type 0} → (health : Option (W → Bool)) → (health_check_func : Option (W → Bool)) → W → Bool
should_warmup health (some check) w = check w
should_warmup (some healthy) none w = healthy w
should_warmup none none w = true

module _ {W D : Type 0} where
  unfoldable pub with_trigger :
      (health : Option (W → Bool)) → WarmupStrategy W D → JobScheduler W D → JobScheduler W D
  unfolding add_interval_trigger should_warmup
  with_trigger health strategy js =
      if ltb_ℤ (pos 0) strategy.warmup_interval
      then add_interval_trigger js (bytes "default") strategy.warmup_interval
          (some (should_warmup health strategy.health_check_func))
      else js

  unfoldable pub strategy_of : Option (WarmupStrategy W D) → WarmupStrategy W D
  strategy_of none = default_strategy
  strategy_of (some strategy) = strategy

module _ {D : Type 0} (heap : HeapPackage) where
  unfoldable pub push_all : List (WarmupJob D) → PriorityQueue D → Option (PriorityQueue D)
  unfolding push
  push_all [] pq = some pq
  push_all (job ∷ jobs) pq = elim (push heap pq job) [ none ↦ none | some pq' ↦ push_all jobs pq' ]

  unfoldable pub first_queue : List (WarmupJob D) → Option (PriorityQueue D)
  unfolding new_priority_queue push_all
  first_queue jobs = elim (new_priority_queue heap) [ none ↦ none | some pq ↦ push_all jobs pq ]

module _ {W D : Type 0} (heap : HeapPackage) where
  unfoldable pub first_scheduler :
      (health : Option (W → Bool))
      → WarmupStrategy W D
      → (use_scheduler : Bool) → Option (Option (JobScheduler W D))
  unfolding new_job_scheduler with_trigger
  first_scheduler health strategy false = some none
  first_scheduler health strategy true = elim (new_job_scheduler heap) [
    | none ↦ none
    | some js ↦ some (some (with_trigger health strategy js))
  ]

  -- The scheduler with a job, if it runs.
  unfoldable pub scheduled :
      Option (JobScheduler W D) → WarmupJob D → Option (Option (JobScheduler W D))
  unfolding schedule_job Scheduler.is_running
  scheduled none job = some none
  scheduled (some js) job =
      if Scheduler.is_running js
      then elim (schedule_job heap js job) [ none ↦ none | some js' ↦ some (some js') ]
      else some (some js)

module _ {W D : Type 0} where
  unfoldable pub scheduler_stopped : Option (JobScheduler W D) → Option (JobScheduler W D)
  unfolding Scheduler.stop
  scheduler_stopped none = none
  scheduler_stopped (some js) = some (Scheduler.stop js)

module _ {S D : Type 0} where
  unfoldable pub pool_stopped : Option (WorkerPool S D) → Option (Option (WorkerPool S D))
  unfolding Pool.stop
  pool_stopped none = some none
  pool_stopped (some wp) = elim (Pool.stop wp) [
    | moved wp' o ↦ some (some wp')
    | panicked ↦ none
    | blocked ↦ none
  ]

  -- The wait of a pool that did not run is over at once.
  unfoldable pub pool_waited : Option (WorkerPool S D) → Option (Option (WorkerPool S D))
  unfolding Pool.stop_waited
  pool_waited none = some none
  pool_waited (some wp) = if not wp.stopping then some (some wp) else elim (Pool.stop_waited wp) [
    | moved wp' o ↦ some (some wp')
    | panicked ↦ none
    | blocked ↦ none
  ]
