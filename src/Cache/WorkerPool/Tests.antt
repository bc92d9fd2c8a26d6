-- ===== src/Cache/WorkerPool/Tests.antt =====
-- Runs of the pool of worker_pool.go on a cache that is the list of its keys.
use task_management_api.Shared.{
  ℕ, ◌≡◌, refl, true, false, none, List, [], ◌∷◌, ◌++◌, Bytes, bytes, length, ◌≤◌,
}
use task_management_api.Shared.Int.{pos}
use mathlib.Core.List.{Perm}
use task_management_api.Cache.Jobs.{WarmupJob}
use task_management_api.Cache.WorkerPool.{
  WorkerPool, moved, panicked, Observation, refused, new_worker_pool, get_stats, start, stop,
  stop_waited, submit_job, resize,
}
use task_management_api.Cache.WorkerPool.Workers.{CacheSet, worker, process, report}
use task_management_api.Cache.WorkerPool.Events.{
  Event, starts, stops, stop_ends, submits, takes, processes, reports, resizes, Ran, ran,
  ran_panicked, ran_blocked, accepted_jobs, stored_jobs, dropped_jobs, step, run,
}
use task_management_api.Cache.WorkerPool.Conservation.{run-Conserves}
use task_management_api.Cache.WorkerPool.Stores.{all_set}
use task_management_api.Cache.WorkerPool.Stopping.{run-never_panics, stop-stored_all}
use task_management_api.Cache.WorkerPool.Draining.{Ends, stop-Ends}
use task_management_api.Cache.WorkerPool.Restart.{restart-panics}

abbrev set : CacheSet (List Bytes) ℕ
set cache key value ttl = (key ∷ cache, none)

abbrev tasks : WarmupJob ℕ
tasks = record { key = bytes "tasks:all"; value = 1; ttl = pos 60; priority = pos 1 }

abbrev users : WarmupJob ℕ
users = record { key = bytes "users:all"; value = 2; ttl = pos 60; priority = pos 5 }

abbrev pool_of : Ran (List Bytes) ℕ → WorkerPool (List Bytes) ℕ
pool_of (ran wp os) = wp
pool_of ran_panicked = new_worker_pool (pos 0) []
pool_of ran_blocked = new_worker_pool (pos 0) []

abbrev seen : Ran (List Bytes) ℕ → List (Observation ℕ)
seen (ran wp os) = os
seen ran_panicked = []
seen ran_blocked = []

-- Two jobs for one worker, which has the first in hand when `Stop` is called.
abbrev at_work : List (Event ℕ)
at_work = starts ∷ submits false tasks ∷ takes false ∷ submits false users ∷ stops ∷ []

abbrev rest_of_work : List (Event ℕ)
rest_of_work =
    processes 0 (pos 5)
    ∷ reports false 0
    ∷ takes false
    ∷ processes 0 (pos 7)
    ∷ reports false 0
    ∷ takes false
    ∷ []

abbrev new_pool : WorkerPool (List Bytes) ℕ
new_pool = new_worker_pool (pos 1) []

abbrev after : List (Event ℕ) → Ran (List Bytes) ℕ
after es = run set es new_pool

abbrev restarted : List (Event ℕ)
restarted = at_work ++ (rest_of_work ++ stop_ends ∷ starts ∷ [])

abbrev stored_both : Ran (List Bytes) ℕ
stored_both = after (at_work ++ (rest_of_work ++ stop_ends ∷ []))

stores_in_order : stored_jobs (seen stored_both) ≡ tasks ∷ users ∷ []
unfolding run start new_worker_pool submit_job worker stop process report stop_waited
stores_in_order = refl

queue_after_work : (get_stats (pool_of stored_both)).queue_capacity ≡ 2
unfolding get_stats run start new_worker_pool submit_job worker stop process report stop_waited
queue_after_work = refl

-- After `Resize` of a pool at work the context is still cancelled: the workers leave, and an accepted
-- job stays in the channel of a pool that runs.
abbrev resized_pool : Ran (List Bytes) ℕ
resized_pool = after (
    starts
    ∷ stops
    ∷ takes false
    ∷ stop_ends
    ∷ resizes (pos 1)
    ∷ starts
    ∷ submits false tasks
    ∷ takes true
    ∷ [])

resize_strands :
    ((pool_of resized_pool).running ≡ true)
    × ((pool_of resized_pool).idle ≡ 0)
    × ((pool_of resized_pool).job_ch.buffer ≡ tasks ∷ [])
unfolding run start new_worker_pool submit_job worker stop process report stop_waited resize
resize_strands = (refl, refl, refl)

run-Conserves_example :
    Perm (accepted_jobs (seen (after at_work))) (
      stored_jobs (seen (after at_work))
      ++ (dropped_jobs (seen (after at_work))
          ++ ((pool_of (after at_work)).busy ++ (pool_of (after at_work)).job_ch.buffer)))
    × (length (pool_of (after at_work)).job_ch.buffer ≤ (pool_of (after at_work)).job_ch.capacity)
    × ((pool_of (after at_work)).cache ≡ all_set set [] (stored_jobs (seen (after at_work))))
unfolding run start new_worker_pool submit_job worker stop process report stop_waited
run-Conserves_example = run-Conserves set (pos 1) [] at_work _ _ refl

run-never_panics_example : ¬ (step set stop_ends (pool_of (after at_work)) ≡ panicked)
unfolding run start new_worker_pool submit_job worker stop process report stop_waited
run-never_panics_example = run-never_panics set (pos 1) [] at_work _ _ stop_ends refl refl

stop-stored_all_example :
    Perm
      (accepted_jobs (seen (after (at_work ++ rest_of_work))))
      (stored_jobs (seen (after (at_work ++ rest_of_work))))
    × ((pool_of (after (at_work ++ rest_of_work))).cache
        ≡ all_set set [] (stored_jobs (seen (after (at_work ++ rest_of_work)))))
unfolding run start new_worker_pool submit_job worker stop process report stop_waited
stop-stored_all_example =
    stop-stored_all set (pos 1) [] (at_work ++ rest_of_work) _ _ _ _ refl refl refl

stop-Ends_example : Ends set (pool_of (after at_work))
unfolding run start new_worker_pool submit_job worker stop process report stop_waited
stop-Ends_example = stop-Ends set (pos 1) [] at_work _ _ refl refl refl

restart-panics_example :
    (step set stops (pool_of (after restarted)) ≡ panicked)
    × ((job : WarmupJob ℕ) → step set (submits false job) (pool_of (after restarted)) ≡ panicked)
    × ((job : WarmupJob ℕ)
        → step set (submits true job) (pool_of (after restarted))
          ≡ moved (pool_of (after restarted)) (refused job))
unfolding run start new_worker_pool submit_job worker stop process report stop_waited
restart-panics_example =
    restart-panics set (pos 1) [] restarted (pool_of (after restarted)) (seen (after restarted))
      refl tt refl refl refl
