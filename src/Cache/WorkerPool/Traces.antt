-- ===== src/Cache/WorkerPool/Traces.antt =====
-- Runs of the steps of worker_pool.go as moves one after the other.
use task_management_api.Shared.{◌≡◌, List, [], ◌∷◌}
use task_management_api.Cache.WorkerPool.{
  WorkerPool, Outcome, moved, panicked, blocked, Observation,
}
use task_management_api.Cache.WorkerPool.Workers.{CacheSet}
use task_management_api.Cache.WorkerPool.Events.{
  Event, Ran, ran, ran_panicked, ran_blocked, observed, step, run,
}
use task_management_api.Cache.WorkerPool.Moves.{Move, Explained}
use task_management_api.Cache.WorkerPool.Steps.{step-Explained}

module _ {S D : Type 0} where
  -- Moves one after the other.
  pub data Trace : WorkerPool S D → List (Observation D) → WorkerPool S D → Type 0 where
    ends : (wp : WorkerPool S D) → Trace wp [] wp
    moves :
        (o : Observation D) (os : List (Observation D)) (wp next last : WorkerPool S D)
        → Move wp o next
        → Trace next os last
        → Trace wp (o ∷ os) last

  abbrev Traced : WorkerPool S D → Ran S D → Type 0
  Traced wp (ran last os) = Trace wp os last
  Traced wp ran_panicked = Unit {0}
  Traced wp ran_blocked = Unit {0}

  observed-Traced :
      (wp next : WorkerPool S D) (o : Observation D) (r : Ran S D)
      → Move wp o next
      → Traced next r
      → Traced wp (observed o r)
  observed-Traced wp next o (ran last os) m t = moves o os wp next last m t
  observed-Traced wp next o ran_panicked m t = tt
  observed-Traced wp next o ran_blocked m t = tt

  run-Traced :
      (set : CacheSet S D) (es : List (Event D)) (wp : WorkerPool S D) → Traced wp (run set es wp)
  unfolding run
  run-Traced set [] wp = ends wp
  run-Traced set (e ∷ es) wp =
      by_outcome (step set e wp) (step-Explained set e wp) (run-Traced set es)
    where
      by_outcome :
          (out : Outcome S D)
          → Explained wp out
          → ((next : WorkerPool S D) → Traced next (run set es next))
          → Traced wp (elim out [
            | panicked ↦ ran_panicked
            | blocked ↦ ran_blocked
            | moved wp' o ↦ observed o (run set es wp')
          ])
      by_outcome panicked x f = tt
      by_outcome blocked x f = tt
      by_outcome (moved wp' o) x f = observed-Traced wp wp' o _ x (f wp')

  pub run-Trace :
      (set : CacheSet S D) (es : List (Event D)) (wp last : WorkerPool S D)
      (os : List (Observation D))
      → run set es wp ≡ ran last os
      → Trace wp os last
  run-Trace set es wp last os h =
      let t : Traced wp (run set es wp) = run-Traced set es wp in rw h at t
