-- ===== src/Cache/Scheduler/Tests.antt =====
-- Ticks and batches of job_scheduler.go, over the package that keeps each queue sorted.
use task_management_api.Shared.{
  ℕ, ◌≡◌, refl, ◌⊎◌, Bool, true, false, Option, none, some, arith, List, [], ◌∷◌, bytes,
}
use task_management_api.Shared.Int.{pos}
use task_management_api.Cache.Jobs.{WarmupJob}
use task_management_api.Cache.PriorityQueue.{pop, jobs}
use task_management_api.Cache.PriorityQueue.Sorted.{Descending, sorting, sorting-laws}
use task_management_api.Cache.WorkerPool.{
  WorkerPool, new_worker_pool, start as start_pool, Outcome, moved, panicked, blocked,
}
use task_management_api.Cache.Scheduler.{
  JobScheduler, schedule_jobs, process_scheduled_jobs, check_triggers, add_event_trigger, start,
  zero_time,
}
use task_management_api.Cache.Scheduler.Batches.{Processed, process-Processed}
use task_management_api.Cache.Scheduler.Triggers.{SomeDue, NoneDue, check_triggers-due}

abbrev job : ℕ → WarmupJob ℕ
job n = record { key = n ∷ []; value = n; ttl = pos 60; priority = pos n }

abbrev new : JobScheduler Bool ℕ
new = record {
  queue = record { items = [] };
  triggers = [];
  running = false;
  cancelled = false;
  loops = 0;
  last_run = zero_time;
  run_count = pos 0;
}

-- Three jobs wait; the pool of one worker has two places, and one of them is taken.
abbrev waiting : JobScheduler Bool ℕ
waiting = record new {
  queue = record {
    items =
        record { job = job 3; priority = pos 3; index = pos 0 }
        ∷ record { job = job 2; priority = pos 2; index = pos 1 }
        ∷ record { job = job 1; priority = pos 1; index = pos 2 }
        ∷ [];
  };
}

abbrev scheduled : Option (JobScheduler Bool ℕ) → List (WarmupJob ℕ)
scheduled none = []
scheduled (some js) = jobs js.queue.items

schedules_by_priority :
    scheduled (schedule_jobs sorting (job 1 ∷ job 3 ∷ job 2 ∷ []) new) ≡ job 3 ∷ job 2 ∷ job 1 ∷ []
unfolding schedule_jobs
schedules_by_priority = refl

abbrev pool_of : Outcome ℕ ℕ → WorkerPool ℕ ℕ
pool_of (moved wp o) = wp
pool_of panicked = new_worker_pool (pos 1) 0
pool_of blocked = new_worker_pool (pos 1) 0

abbrev busy_pool : WorkerPool ℕ ℕ
busy_pool = record (pool_of (start_pool (new_worker_pool (pos 1) 0))) {
  job_ch = record { buffer = job 9 ∷ []; capacity = 2; closed = false };
}

abbrev buffer_of :
    Option (JobScheduler Bool ℕ × Option (WorkerPool ℕ ℕ) × ℕ)
    → List (WarmupJob ℕ) × List (WarmupJob ℕ)
buffer_of none = ([], [])
buffer_of (some (js, none, n)) = ([], [])
buffer_of (some (js, some wp, n)) = (wp.job_ch.buffer, jobs js.queue.items)

-- The job of priority 2 is lost: it is neither in the pool nor in the queue.
batch_loses_job :
    buffer_of (process_scheduled_jobs sorting (λ i. false) waiting (some busy_pool) (pos 5))
    ≡ (job 9 ∷ job 3 ∷ [], job 1 ∷ [])
unfolding process_scheduled_jobs pop start_pool new_worker_pool
batch_loses_job = refl

-- Without a pool the scheduler panics as soon as it has jobs.
no_pool_panics : process_scheduled_jobs {S = ℕ} sorting (λ i. false) waiting none (pos 5) ≡ none
unfolding process_scheduled_jobs pop
no_pool_panics = refl

process-Processed_example :
    Processed sorting Descending sorting-laws (λ i. false) waiting busy_pool (pos 5)
unfolding start_pool new_worker_pool
process-Processed_example =
    process-Processed sorting Descending sorting-laws (λ i. false) waiting busy_pool (pos 5)
      (record {
        ordered = omega arith;
        agree = (refl, (refl, (refl, tt)));
        indexed = (refl, (refl, (refl, tt)));
      })
      (record { runs = refl; not_stopping = refl; not_cancelled = refl; not_closed = refl })

abbrev ready : JobScheduler Bool ℕ
ready = start (add_event_trigger waiting (bytes "event") (some (λ w. w))) (pos 4)

check_triggers-due_example :
    ((ready.running ≡ true)
      × SomeDue true (pos 5) ready.last_run ready.triggers
      × (check_triggers sorting (λ i. false) true ready (some busy_pool) (pos 5) (pos 6)
          ≡ process_scheduled_jobs sorting (λ i. false) ready (some busy_pool) (pos 6)))
    ⊎ (((ready.running ≡ false) ⊎ NoneDue true (pos 5) ready.last_run ready.triggers)
        × (check_triggers sorting (λ i. false) true ready (some busy_pool) (pos 5) (pos 6)
            ≡ some (ready, some busy_pool, 0)))
check_triggers-due_example =
    check_triggers-due sorting (λ i. false) true ready (some busy_pool) (pos 5) (pos 6)
