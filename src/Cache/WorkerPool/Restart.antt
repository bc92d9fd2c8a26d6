-- ===== src/Cache/WorkerPool/Restart.antt =====
-- A pool of worker_pool.go that is started again after its `Stop`.
use task_management_api.Shared.{◌≡◌, refl, Bool, true, false, List, [], ◌∷◌, arith, if◌then◌else◌}
use task_management_api.Shared.Int.{ℤ}
use task_management_api.Cache.Jobs.{WarmupJob}
use task_management_api.Cache.WorkerPool.{
  WorkerPool, moved, panicked, Observation, accepted, refused, stored, dropped, quiet,
  new_worker_pool, stop, stop_closed, submit_job, submitted,
}
use task_management_api.Cache.WorkerPool.Workers.{CacheSet}
use task_management_api.Cache.WorkerPool.Channels.{send_ready, close, choose}
use task_management_api.Cache.WorkerPool.Events.{Event, ran, step, run, stops, submits}
use task_management_api.Cache.WorkerPool.Moves.{
  Move, stays, refuses, started, stop_began, stop_ended, admits, left_cancelled, left_closed, took,
  processed, told, left_untold, collected, resized,
}
use task_management_api.Cache.WorkerPool.Traces.{Trace, ends, moves, run-Trace}
use task_management_api.Cache.WorkerPool.Phases.{clash}

-- No `Resize` has replaced the channels.
abbrev pub Unresized : {D : Type 0} → List (Observation D) → Type 0
Unresized [] = Unit {0}
Unresized (accepted job ∷ os) = Unresized os
Unresized (refused job ∷ os) = Unresized os
Unresized (stored job ∷ os) = Unresized os
Unresized (dropped jobs ∷ os) = ⊥
Unresized (quiet ∷ os) = Unresized os

Unresized-split :
    {D : Type 0} (o : Observation D) (os : List (Observation D))
    → Unresized (o ∷ os)
    → Unresized (o ∷ []) × Unresized os
Unresized-split (accepted job) os u = (tt, u)
Unresized-split (refused job) os u = (tt, u)
Unresized-split (stored job) os u = (tt, u)
Unresized-split (dropped jobs) os u = absurd u
Unresized-split quiet os u = (tt, u)

module _ {S D : Type 0} where
  -- `Stop` was never called, or has closed the channel of jobs.
  data Shut (wp : WorkerPool S D) : Type 0 where
    never : wp.stopping ≡ false → wp.cancelled ≡ false → Shut wp
    shut : wp.job_ch.closed ≡ true → Shut wp

  Move-Shut :
      (wp wp' : WorkerPool S D) (o : Observation D)
      → Move wp o wp'
      → Unresized (o ∷ [])
      → Shut wp
      → Shut wp'
  Move-Shut wp wp' o stays u (never a b) = never a b
  Move-Shut wp wp' o stays u (shut a) = shut a
  Move-Shut wp wp' o (refuses job) u (never a b) = never a b
  Move-Shut wp wp' o (refuses job) u (shut a) = shut a
  Move-Shut wp wp' o (started e f) u (never a b) = never a b
  Move-Shut wp wp' o (started e f) u (shut a) = shut a
  Move-Shut wp wp' o (stop_began e f g) u x = shut refl
  Move-Shut wp wp' o (stop_ended e f) u (never a b) = clash wp.stopping e a
  Move-Shut wp wp' o (stop_ended e f) u (shut a) = shut a
  Move-Shut wp wp' o (admits job e f g h) u (never a b) = never a b
  Move-Shut wp wp' o (admits job e f g h) u (shut a) = shut a
  Move-Shut wp wp' o (left_cancelled e) u (never a b) = never a b
  Move-Shut wp wp' o (left_cancelled e) u (shut a) = shut a
  Move-Shut wp wp' o (left_closed e f) u (never a b) = never a b
  Move-Shut wp wp' o (left_closed e f) u (shut a) = shut a
  Move-Shut wp wp' o (took job rest e) u (never a b) = never a b
  Move-Shut wp wp' o (took job rest e) u (shut a) = shut a
  Move-Shut wp wp' o (processed i job rest cache result e) u (never a b) = never a b
  Move-Shut wp wp' o (processed i job rest cache result e) u (shut a) = shut a
  Move-Shut wp wp' o (told rest ch e) u (never a b) = never a b
  Move-Shut wp wp' o (told rest ch e) u (shut a) = shut a
  Move-Shut wp wp' o (left_untold rest e) u (never a b) = never a b
  Move-Shut wp wp' o (left_untold rest e) u (shut a) = shut a
  Move-Shut wp wp' o (collected k h ch m t n e) u (never a b) = never a b
  Move-Shut wp wp' o (collected k h ch m t n e) u (shut a) = shut a
  Move-Shut wp wp' o (resized n e f) u x = absurd u

  Trace-Shut :
      (wp last : WorkerPool S D) (os : List (Observation D))
      → Trace wp os last
      → Unresized os
      → Shut wp
      → Shut last
  Trace-Shut wp last os (ends _) u x = x
  Trace-Shut wp last os (moves o rest _ next _ m t) u x =
      let v = Unresized-split o rest u in
      Trace-Shut next last rest t v.1 (Move-Shut wp next o m v.0 x)

  stopped-closed : (wp : WorkerPool S D) → Shut wp → wp.cancelled ≡ true → wp.job_ch.closed ≡ true
  stopped-closed wp (never a b) c = clash wp.cancelled c b
  stopped-closed wp (shut a) c = a

  submit-closed :
      (d : Bool) (wp : WorkerPool S D) (job : WarmupJob D)
      → wp.running ≡ true
      → wp.stopping ≡ false
      → wp.cancelled ≡ true
      → wp.job_ch.closed ≡ true
      → submit_job d wp job ≡ (if d then moved wp (refused job) else panicked)
  unfolding submit_job submitted choose send_ready
  submit-closed d wp job r s c k = ground arith

  stop-closed :
      (wp : WorkerPool S D)
      → wp.running ≡ true
      → wp.stopping ≡ false
      → wp.job_ch.closed ≡ true
      → stop wp ≡ panicked
  unfolding stop stop_closed close
  stop-closed wp r s k = ground arith

  -- A pool that was stopped and started again, its channels not replaced by `Resize`, admits no job:
  -- where its `select` takes the send, `SubmitJob` panics, and where it takes `ctx.Done()`, it
  -- refuses. A second `Stop` panics.
  pub restart-panics :
      (set : CacheSet S D) (workers : ℤ) (cache : S) (es : List (Event D)) (wp : WorkerPool S D)
      (os : List (Observation D))
      → run set es (new_worker_pool workers cache) ≡ ran wp os
      → Unresized os
      → wp.cancelled ≡ true
      → wp.running ≡ true
      → wp.stopping ≡ false
      → (step set stops wp ≡ panicked)
        × ((job : WarmupJob D) → step set (submits false job) wp ≡ panicked)
        × ((job : WarmupJob D) → step set (submits true job) wp ≡ moved wp (refused job))
  unfolding step new_worker_pool
  restart-panics set workers cache es wp os h u c r s =
      let k =
        stopped-closed wp (Trace-Shut _ wp os (run-Trace set es _ wp os h) u (never refl refl)) c in
      (
        stop-closed wp r s k,
        λ job. submit-closed false wp job r s c k,
        λ job. submit-closed true wp job r s c k,
      )
