-- ===== src/Cache/WorkerPool/Events.antt =====
-- Interleavings of the goroutines of backend/internal/cache/worker_pool.go and of its callers.
use task_management_api.Shared.{ℕ, Bool, List, [], ◌∷◌, ◌++◌}
use task_management_api.Shared.Int.{ℤ}
use task_management_api.Cache.Jobs.{WarmupJob}
use task_management_api.Cache.WorkerPool.{
  WorkerPool, Outcome, moved, panicked, blocked, Observation, accepted, refused, stored, dropped,
  quiet, start, stop, stop_waited, submit_job, resize,
}
use task_management_api.Cache.WorkerPool.Workers.{CacheSet, worker, process, report}
use task_management_api.Cache.WorkerPool.Collector.{result_collector, collect}

pub data Event (D : Type 0) : Type 0 where
  starts stops stop_ends : Event D
  submits : (done_first : Bool) → WarmupJob D → Event D
  takes : (done_first : Bool) → Event D
  processes : ℕ → (duration : ℤ) → Event D
  reports : (done_first : Bool) → ℕ → Event D
  receives : (done_first : Bool) → Event D
  collects : ℕ → Event D
  resizes : ℤ → Event D

pub data Ran (S D : Type 0) : Type 0 where
  ran : WorkerPool S D → List (Observation D) → Ran S D
  ran_panicked ran_blocked : Ran S D

abbrev pub observed : {S D : Type 0} → Observation D → Ran S D → Ran S D
observed o (ran wp os) = ran wp (o ∷ os)
observed o ran_panicked = ran_panicked
observed o ran_blocked = ran_blocked

module _ {D : Type 0} where
  abbrev pub accepted_jobs : List (Observation D) → List (WarmupJob D)
  accepted_jobs [] = []
  accepted_jobs (accepted job ∷ os) = job ∷ accepted_jobs os
  accepted_jobs (refused job ∷ os) = accepted_jobs os
  accepted_jobs (stored job ∷ os) = accepted_jobs os
  accepted_jobs (dropped jobs ∷ os) = accepted_jobs os
  accepted_jobs (quiet ∷ os) = accepted_jobs os

  abbrev pub stored_jobs : List (Observation D) → List (WarmupJob D)
  stored_jobs [] = []
  stored_jobs (accepted job ∷ os) = stored_jobs os
  stored_jobs (refused job ∷ os) = stored_jobs os
  stored_jobs (stored job ∷ os) = job ∷ stored_jobs os
  stored_jobs (dropped jobs ∷ os) = stored_jobs os
  stored_jobs (quiet ∷ os) = stored_jobs os

  abbrev pub dropped_jobs : List (Observation D) → List (WarmupJob D)
  dropped_jobs [] = []
  dropped_jobs (accepted job ∷ os) = dropped_jobs os
  dropped_jobs (refused job ∷ os) = dropped_jobs os
  dropped_jobs (stored job ∷ os) = dropped_jobs os
  dropped_jobs (dropped jobs ∷ os) = jobs ++ dropped_jobs os
  dropped_jobs (quiet ∷ os) = dropped_jobs os

module _ {S D : Type 0} (set : CacheSet S D) where
  unfoldable pub step : Event D → WorkerPool S D → Outcome S D
  step starts wp = start wp
  step stops wp = stop wp
  step stop_ends wp = stop_waited wp
  step (submits done_first job) wp = submit_job done_first wp job
  step (takes done_first) wp = worker done_first wp
  step (processes i duration) wp = process set i duration wp
  step (reports done_first i) wp = report done_first i wp
  step (receives done_first) wp = result_collector done_first wp
  step (collects i) wp = collect i wp
  step (resizes n) wp = resize n wp

  -- The steps one after the other.
  unfoldable pub run : List (Event D) → WorkerPool S D → Ran S D
  unfolding step
  run [] wp = ran wp []
  run (e ∷ es) wp = elim (step e wp) [
    | panicked ↦ ran_panicked
    | blocked ↦ ran_blocked
    | moved wp' o ↦ observed o (run es wp')
  ]
