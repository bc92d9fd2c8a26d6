-- ===== src/Cache/Scheduler.antt =====
-- backend/internal/cache/job_scheduler.go: triggers, and the priority queue in front of the worker pool.
-- `W` is what the conditions of triggers read, `S` the cache of the pool. The map of triggers is an
-- association list, in the order in which a loop meets it. The scheduler has no pool where it is `none`,
-- and a method that fails with `none` panics, or waits for the mutex that `Stop` of the pool holds.
pub mod Submission
pub mod Extraction
pub mod Batches
pub mod Triggers
mod Tests
use task_management_api.Shared.{
  ℕ, zero, suc, ◌==◌, Bool, true, false, Option, none, some, List, [], ◌∷◌, not, ◌&&◌, length,
  Bytes, bytes, bytes_eq, map, if◌then◌else◌,
}
use task_management_api.Shared.Int.{ℤ, pos, negsuc, Time, inc}
use task_management_api.Cache.Jobs.{WarmupJob}
use task_management_api.Cache.PriorityQueue.{
  HeapPackage, PriorityQueue, new_priority_queue, push, pop, clear, len, is_empty,
}
use task_management_api.Cache.Triggers.{ScheduleTrigger, put_trigger, delete_trigger, due_name}
use task_management_api.Cache.WorkerPool.{WorkerPool, get_stats as pool_stats, submit_jobs}

-- `loops` counts the goroutines of `schedulerLoop`.
pub record JobScheduler (W D : Type 0) : Type 0 where
  pub queue : PriorityQueue D
  pub triggers : List (Bytes × ScheduleTrigger W)
  pub running : Bool
  pub cancelled : Bool
  pub loops : ℕ
  pub last_run : Time
  pub run_count : ℤ

-- The zero `time.Time`, the first of January of the year 1.
abbrev pub zero_time : Time
zero_time = negsuc 62_135_596_799_999_999_999

-- `next_run` is never set.
pub record Stats : Type 0 where
  pub running : Bool
  pub trigger_count : ℕ
  pub queue_length : ℕ
  pub last_run : Time
  pub run_count : ℤ

module _ {W D : Type 0} (heap : HeapPackage) where
  abbrev pub scheduler_of : Option (PriorityQueue D) → Option (JobScheduler W D)
  scheduler_of none = none
  scheduler_of (some queue) = some (record {
    queue = queue;
    triggers = [];
    running = false;
    cancelled = false;
    loops = 0;
    last_run = zero_time;
    run_count = pos 0;
  })

  unfoldable pub new_job_scheduler : Option (JobScheduler W D)
  unfolding new_priority_queue
  new_job_scheduler = scheduler_of (new_priority_queue heap)

  unfoldable pub with_queue :
      JobScheduler W D → Option (PriorityQueue D) → Option (JobScheduler W D)
  with_queue js none = none
  with_queue js (some queue) = some (record js { queue = queue })

  unfoldable pub schedule_job : JobScheduler W D → WarmupJob D → Option (JobScheduler W D)
  unfolding push with_queue
  schedule_job js job = with_queue js (push heap js.queue job)

  unfoldable pub schedule_jobs : List (WarmupJob D) → JobScheduler W D → Option (JobScheduler W D)
  unfolding schedule_job
  schedule_jobs [] js = some js
  schedule_jobs (job ∷ jobs) js = elim (schedule_job js job) [
    | none ↦ none
    | some js' ↦ schedule_jobs jobs js'
  ]

  unfoldable pub clear_queue : JobScheduler W D → Option (JobScheduler W D)
  unfolding clear with_queue
  clear_queue js = with_queue js (clear heap js.queue)

module _ {W D : Type 0} where
  unfoldable pub add_interval_trigger :
      JobScheduler W D
      → (name : Bytes) → (interval : ℤ) → (condition : Option (W → Bool)) → JobScheduler W D
  unfolding put_trigger
  add_interval_trigger js name interval condition = record js {
    triggers =
        put_trigger js.triggers name
          (record { kind = bytes "interval"; interval = interval; condition = condition });
  }

  unfoldable pub add_event_trigger :
      JobScheduler W D → (name : Bytes) → (condition : Option (W → Bool)) → JobScheduler W D
  unfolding put_trigger
  add_event_trigger js name condition = record js {
    triggers =
        put_trigger js.triggers name
          (record { kind = bytes "event"; interval = pos 0; condition = condition });
  }

  unfoldable pub remove_trigger : JobScheduler W D → Bytes → JobScheduler W D
  unfolding delete_trigger
  remove_trigger js name = record js { triggers = delete_trigger js.triggers name }

  unfoldable pub start : JobScheduler W D → (now : Time) → JobScheduler W D
  start js now =
      if js.running then js else record js { running = true; last_run = now; loops = suc js.loops }

  unfoldable pub stop : JobScheduler W D → JobScheduler W D
  stop js = if not js.running then js else record js { running = false; cancelled = true }

  unfoldable pub get_stats : JobScheduler W D → Stats
  unfolding len
  get_stats js = record {
    running = js.running;
    trigger_count = length js.triggers;
    queue_length = len js.queue;
    last_run = js.last_run;
    run_count = js.run_count;
  }

  unfoldable pub get_triggers : JobScheduler W D → List (Bytes × ScheduleTrigger W)
  get_triggers js = js.triggers

  unfoldable pub is_running : JobScheduler W D → Bool
  is_running js = js.running

abbrev pub Coin : Type 0
Coin = ℕ → Bool

-- Each job with the choice that its `select` makes if it has one.
unfoldable pub with_coins : {D : Type 0} → Coin → ℕ → List (WarmupJob D) → List (Bool × WarmupJob D)
with_coins coin i [] = []
with_coins coin i (job ∷ jobs) = (coin i, job) ∷ with_coins coin (suc i) jobs

module _ {S D : Type 0} where
  unfoldable pub batch_size : Option (WorkerPool S D) → ℕ
  unfolding pool_stats
  batch_size none = 10
  batch_size (some wp) = (pool_stats wp).queue_capacity

  -- `workerPool.SubmitJobs`, which panics where there is no pool.
  unfoldable pub submit_batch :
      Coin → Option (WorkerPool S D) → List (WarmupJob D) → Option (WorkerPool S D × ℕ)
  unfolding with_coins submit_jobs
  submit_batch coin none jobs = none
  submit_batch coin (some wp) jobs = submit_jobs (with_coins coin 0 jobs) wp 0

module _ {D : Type 0} (heap : HeapPackage) where
  abbrev with_job :
      Option (WarmupJob D)
      → Option (PriorityQueue D × List (WarmupJob D))
      → Option (PriorityQueue D × List (WarmupJob D))
  with_job job none = none
  with_job none (some (pq, jobs)) = some (pq, jobs)
  with_job (some job) (some (pq, jobs)) = some (pq, job ∷ jobs)

  -- The loop of `extractJobsBatch` with `n` rounds to go.
  unfoldable pub extract_jobs : ℕ → PriorityQueue D → Option (PriorityQueue D × List (WarmupJob D))
  extract_jobs zero pq = some (pq, [])
  extract_jobs (suc n) pq =
      if is_empty pq
      then some (pq, [])
      else elim (pop heap pq) [ none ↦ none | some (pq', job) ↦ with_job job (extract_jobs n pq') ]

  unfoldable pub extract_jobs_batch :
      {S : Type 0}
      → PriorityQueue D
      → Option (WorkerPool S D)
      → Option (PriorityQueue D × List (WarmupJob D))
  unfolding batch_size extract_jobs
  extract_jobs_batch pq wp = extract_jobs (batch_size wp) pq

module _ {W S D : Type 0} (heap : HeapPackage) where
  -- With the pool as it is then, and the number of jobs submitted.
  unfoldable pub submitted :
      Coin
      → JobScheduler W D
      → Option (WorkerPool S D)
      → (now : Time) → Option (PriorityQueue D × List (WarmupJob D))
      → Option (JobScheduler W D × Option (WorkerPool S D) × ℕ)
  unfolding submit_batch inc
  submitted coin js wp now none = none
  submitted coin js wp now (some (pq, [])) = some (record js { queue = pq }, wp, 0)
  submitted coin js wp now (some (pq, job ∷ jobs)) = elim (submit_batch coin wp (job ∷ jobs)) [
    | none ↦ none
    | some (wp', n) ↦
        some (record js { queue = pq; run_count = inc js.run_count; last_run = now }, some wp', n)
  ]

  unfoldable pub process_scheduled_jobs :
      Coin
      → JobScheduler W D
      → Option (WorkerPool S D)
      → (now : Time) → Option (JobScheduler W D × Option (WorkerPool S D) × ℕ)
  unfolding is_empty extract_jobs_batch submitted
  process_scheduled_jobs coin js wp now =
      if is_empty js.queue
      then some (js, wp, 0)
      else submitted coin js wp now (extract_jobs_batch heap js.queue wp)

  -- `now` is read for the triggers, `done` after the submission.
  unfoldable pub check_triggers :
      Coin
      → W
      → JobScheduler W D
      → Option (WorkerPool S D)
      → (now done : Time) → Option (JobScheduler W D × Option (WorkerPool S D) × ℕ)
  unfolding due_name process_scheduled_jobs
  check_triggers coin w js wp now done =
      if not js.running
      then some (js, wp, 0)
      else elim (due_name js.triggers w now js.last_run none) [
        | none ↦ some (js, wp, 0)
        | some name ↦ process_scheduled_jobs coin js wp done
      ]
