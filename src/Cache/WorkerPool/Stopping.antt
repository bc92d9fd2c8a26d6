-- ===== src/Cache/WorkerPool/Stopping.antt =====
-- `Stop` of worker_pool.go: no step panics before it ends, it does end, and no job is left.
use task_management_api.Shared.{
  ◌≡◌, refl, ◌⊎◌, inl, inr, true, false, Bool-cases, ◌&&◌, ◌==◌, List, [], ◌∷◌, length, arith,
}
use task_management_api.Shared.Int.{ℤ}
use mathlib.Core.List.{Perm, append-nil}
use task_management_api.Cache.WorkerPool.{
  WorkerPool, moved, panicked, Observation, stop_waited, new_worker_pool, alive,
}
use task_management_api.Cache.WorkerPool.Workers.{CacheSet}
use task_management_api.Cache.WorkerPool.Events.{
  Event, ran, accepted_jobs, stored_jobs, step, run, stop_ends,
}
use task_management_api.Cache.WorkerPool.Moves.{Fault, Explained}
use task_management_api.Cache.WorkerPool.Steps.{step-Explained}
use task_management_api.Cache.WorkerPool.Stores.{all_set}
use task_management_api.Cache.WorkerPool.Traces.{run-Trace}
use task_management_api.Cache.WorkerPool.Conservation.{run-Conserves}
use task_management_api.Cache.WorkerPool.Phases.{
  Phase, unstarted, serving, draining, stopped, clash, Trace-dropped, Fault-clash, run-Phase,
  positive_or-positive, new-Phase,
}

nil_of_length : {A : Type 0} (xs : List A) → length xs ≡ 0 → xs ≡ []
nil_of_length [] e = refl
nil_of_length (x ∷ xs) e = absurd (omega arith)

module _ {S D : Type 0} where
  -- Until the first `Stop` of a new pool has ended, no step of a goroutine or of a caller panics,
  -- however they interleave.
  pub run-never_panics :
      (set : CacheSet S D) (workers : ℤ) (cache : S) (es : List (Event D)) (wp : WorkerPool S D)
      (os : List (Observation D)) (e : Event D)
      → run set es (new_worker_pool workers cache) ≡ ran wp os
      → wp.cancelled ≡ false
      → ¬ (step set e wp ≡ panicked)
  run-never_panics set workers cache es wp os e h c p =
      let x : Explained wp (step set e wp) = step-Explained set e wp in
      let f : Fault wp = rw p at x in Fault-clash wp (run-Phase set workers cache es wp os h) c f

  waited-empty :
      (wp : WorkerPool S D)
      → Phase wp
      → wp.cancelled ≡ false
      → wp.stopping ≡ true
      → alive wp ≡ 0
      → wp.job_ch.buffer ≡ []
  waited-empty wp (unstarted a b c d x) n s z = clash wp.stopping s b
  waited-empty wp (serving a b c d x) n s z = clash wp.stopping s b
  waited-empty wp (draining a b c d (inl x)) n s z = absurd (omega (arith, x, z))
  waited-empty wp (draining a b c d (inr x)) n s z = x
  waited-empty wp (stopped x) n s z = clash wp.cancelled x n

  ended-empty :
      (set : CacheSet S D) (wp last : WorkerPool S D) (o : Observation D)
      → Phase wp
      → wp.cancelled ≡ false
      → step set stop_ends wp ≡ moved last o
      → (wp.busy ≡ []) × (wp.job_ch.buffer ≡ [])
  unfolding step stop_waited
  ended-empty set wp last o p c e =
      let w : (wp.stopping ≡ true) × (alive wp ≡ 0) =
        ended-cases (Bool-cases (wp.stopping && (alive wp == 0))) in
      (nil_of_length wp.busy (omega (arith, w.1)), waited-empty wp p c w.0 w.1)
    where
      ended-cases :
          ((wp.stopping && (alive wp == 0)) ≡ true) ⊎ ((wp.stopping && (alive wp == 0)) ≡ false)
          → (wp.stopping ≡ true) × (alive wp ≡ 0)
      ended-cases (inl f) = (ground arith, ground arith)
      ended-cases (inr f) = absurd (ground (arith, e, f))

  -- When the first `Stop` of a new pool stops waiting, the jobs that `SubmitJob` had accepted are, each
  -- as often, those for which a worker has called `Set`, however the goroutines interleaved, and the
  -- cache is what `Set` makes of it for their keys, values and times to live, one after the other,
  -- whether it fails or not.
  pub stop-stored_all :
      (set : CacheSet S D) (workers : ℤ) (cache : S) (es : List (Event D))
      (wp last : WorkerPool S D) (os : List (Observation D)) (o : Observation D)
      → run set es (new_worker_pool workers cache) ≡ ran wp os
      → wp.cancelled ≡ false
      → step set stop_ends wp ≡ moved last o
      → Perm (accepted_jobs os) (stored_jobs os) × (wp.cache ≡ all_set set cache (stored_jobs os))
  unfolding new_worker_pool
  stop-stored_all set workers cache es wp last os o h c e =
      let p = run-Phase set workers cache es wp os h in
      let (b, f) = ended-empty set wp last o p c e in
      let d =
        Trace-dropped _ wp os (run-Trace set es _ wp os h) (positive_or-positive workers)
          (new-Phase workers cache) c in
      let q = run-Conserves set workers cache es wp os h in
      (rw (d, b, f, append-nil (stored_jobs os)) at q.0, q.2)
