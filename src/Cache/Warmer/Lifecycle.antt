-- ===== src/Cache/Warmer/Lifecycle.antt =====
-- Warmers of warmer.go from `NewCacheWarmer` through `Start` and `Stop`, over the package that keeps each
-- queue sorted.
use task_management_api.Shared.{ℕ, ◌≡◌, refl, Bool, true, false, Option, none, some, List, [], ◌∷◌}
use task_management_api.Shared.Int.{pos, Time}
use task_management_api.Cache.Jobs.{WarmupJob}
use task_management_api.Cache.PriorityQueue.{pop}
use task_management_api.Cache.PriorityQueue.Sorted.{Descending, sorting, sorting-laws}
use task_management_api.Cache.WorkerPool.{WorkerPool}
use task_management_api.Cache.Warmer.Parts.{WarmupStrategy}
use task_management_api.Cache.Warmer.{
  CacheWarmer, new_cache_warmer, start, stop, stop_waited, warm_cache_manually,
}
use task_management_api.Cache.Warmer.Handed.{HandedOver, start-HandedOver}

abbrev job : ℕ → WarmupJob ℕ
job n = record { key = n ∷ []; value = n; ttl = pos 60; priority = pos n }

abbrev strategy : (pool scheduler : Bool) → WarmupStrategy Bool ℕ
strategy pool scheduler = record {
  jobs = job 1 ∷ job 3 ∷ job 2 ∷ [];
  batch_size = pos 2;
  concurrent_jobs = pos 3;
  warmup_interval = pos 300;
  health_check_func = none;
  use_worker_pool = pool;
  use_scheduler = scheduler;
}

abbrev empty : List ℕ
empty = []

abbrev Warmer : Type 0
Warmer = Option (CacheWarmer Bool (List ℕ) ℕ)

abbrev new : (pool scheduler : Bool) → Warmer
new pool scheduler = new_cache_warmer sorting none [] (some (strategy pool scheduler))

abbrev then_start : Time → Warmer → Warmer
then_start now none = none
then_start now (some cw) = start sorting cw now

abbrev waited : Option (CacheWarmer Bool (List ℕ) ℕ × Bool) → Warmer
waited none = none
waited (some (cw, false)) = some cw
waited (some (cw, true)) = stop_waited cw

abbrev then_stop : Warmer → Warmer
then_stop none = none
then_stop (some cw) = waited (stop cw)

abbrev then_warm : Time → Warmer → Warmer
then_warm now none = none
then_warm now (some cw) = warm_cache_manually sorting (λ i. false) cw now

-- The jobs in the channel of the pool.
abbrev in_pool : Option (WorkerPool (List ℕ) ℕ) → List (WarmupJob ℕ)
in_pool none = []
in_pool (some wp) = wp.job_ch.buffer

abbrev in_channel : Warmer → List (WarmupJob ℕ)
in_channel none = []
in_channel (some cw) = in_pool cw.worker_pool

-- The jobs are handed to the scheduler once: a second warm-up submits none.
warms_once :
    (in_channel (then_warm (pos 9) (then_start (pos 1) (new true true)))
      ≡ job 3 ∷ job 2 ∷ job 1 ∷ [])
    × (in_channel (then_warm (pos 19) (then_warm (pos 9) (then_start (pos 1) (new true true))))
        ≡ job 3 ∷ job 2 ∷ job 1 ∷ [])
unfolding new_cache_warmer start warm_cache_manually pop
warms_once = (refl, refl)

-- A scheduler without a pool panics on its jobs.
no_pool_panics : then_warm (pos 9) (then_start (pos 1) (new false true)) ≡ none
unfolding new_cache_warmer start warm_cache_manually pop
no_pool_panics = refl

-- `Stop` works once, and panics on the second time even without a pool, since it closes `stopCh` again.
second_stop_panics :
    then_stop (then_start (pos 5) (then_stop (then_start (pos 1) (new false false)))) ≡ none
unfolding new_cache_warmer start stop stop_waited
second_stop_panics = refl

start-HandedOver_example : HandedOver sorting none empty (strategy true true) (pos 1)
start-HandedOver_example =
    start-HandedOver sorting Descending sorting-laws none empty (strategy true true) (pos 1) refl
