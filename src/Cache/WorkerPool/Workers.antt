-- ===== src/Cache/WorkerPool/Workers.antt =====
-- The workers of backend/internal/cache/worker_pool.go.
use task_management_api.Shared.{
  ℕ, suc, ◌-◌, Bool, Option, none, some, List, [], ◌∷◌, ◌==◌, Bytes, if◌then◌else◌,
}
use task_management_api.Shared.Int.{ℤ}
use task_management_api.Cache.Jobs.{WarmupJob}
use task_management_api.Cache.WorkerPool.Channels.{
  send_ready, receive_ready, put, Chosen, by_channel, by_done, by_default, choose,
}
use task_management_api.Cache.WorkerPool.{
  WorkerPool, JobResult, Outcome, moved, panicked, blocked, stored, quiet, take_out,
}

module _ {S D : Type 0} where
  -- A worker with what it received: nothing from a closed channel.
  unfoldable pub received : List (WarmupJob D) → WorkerPool S D → Outcome S D
  received [] wp = moved (record wp { idle = wp.idle - 1 }) quiet
  received (job ∷ rest) wp =
      moved
        (record wp {
          idle = wp.idle - 1;
          busy = job ∷ wp.busy;
          job_ch = record wp.job_ch { buffer = rest };
        })
        quiet

  unfoldable pub chosen : Chosen → WorkerPool S D → Outcome S D
  unfolding received
  chosen by_channel wp = received wp.job_ch.buffer wp
  chosen by_done wp = moved (record wp { idle = wp.idle - 1 }) quiet
  chosen by_default wp = blocked

  -- A worker at its `select`.
  unfoldable pub worker : (done_first : Bool) → WorkerPool S D → Outcome S D
  unfolding choose receive_ready chosen
  worker done_first wp =
      if wp.idle == 0
      then blocked
      else chosen (choose done_first (receive_ready wp.job_ch) wp.cancelled) wp

  unfoldable pub reported : Chosen → JobResult D → List (JobResult D) → WorkerPool S D → Outcome S D
  unfolding put
  reported by_channel result rest wp =
      if wp.result_ch.closed
      then panicked
      else moved
          (record wp { reporting = rest; idle = suc wp.idle; result_ch = put wp.result_ch result })
          quiet
  reported by_done result rest wp = moved (record wp { reporting = rest }) quiet
  reported by_default result rest wp =
      moved (record wp { reporting = rest; idle = suc wp.idle }) quiet

  -- A worker at the send of its result.
  unfoldable pub report : (done_first : Bool) → ℕ → WorkerPool S D → Outcome S D
  unfolding take_out choose send_ready reported
  report done_first i wp = elim (take_out i wp.reporting) [
    | none ↦ blocked
    | some (result, rest) ↦
        reported (choose done_first (send_ready wp.result_ch) wp.cancelled) result rest wp
  ]

-- `cache.Set`: the cache and the error.
abbrev pub CacheSet : Type 0 → Type 0 → Type 0
CacheSet S D = S → Bytes → D → ℤ → S × Option Bytes

module _ {S D : Type 0} (set : CacheSet S D) where
  -- `duration` is what `time.Since` reads.
  unfoldable pub process_job : S → WarmupJob D → (duration : ℤ) → S × JobResult D
  process_job cache job duration =
      let (cache', err) = set cache job.key job.value job.ttl in
      (cache', record { job = job; error = err; duration = duration })

  -- A busy worker, at the end of `processJob`.
  unfoldable pub process : ℕ → (duration : ℤ) → WorkerPool S D → Outcome S D
  unfolding take_out process_job
  process i duration wp = elim (take_out i wp.busy) [
    | none ↦ blocked
    | some (job, rest) ↦
        let (cache, result) = process_job wp.cache job duration in
        moved (record wp { busy = rest; reporting = result ∷ wp.reporting; cache = cache })
          (stored job)
  ]
