-- ===== src/Cache/WorkerPool/Moves.antt =====
-- The moves of the pool of worker_pool.go, as a relation between pools, and what makes a step panic.
use task_management_api.Shared.{
  ℕ, suc, ◌+◌, ◌-◌, ◌*◌, ◌<◌, ◌≡◌, true, false, some, List, [], ◌∷◌, ◌++◌, length,
}
use task_management_api.Shared.Int.{ℤ}
use task_management_api.Cache.Jobs.{WarmupJob}
use task_management_api.Cache.WorkerPool.Channels.{Channel, make_channel}
use task_management_api.Cache.WorkerPool.{
  WorkerPool, JobResult, Outcome, moved, panicked, blocked, Observation, accepted, refused, stored,
  dropped, quiet, take_out, alive,
}

module _ {S D : Type 0} where
  pub data Move (wp : WorkerPool S D) : Observation D → WorkerPool S D → Type 0 where
    stays : Move wp quiet wp
    refuses : (job : WarmupJob D) → Move wp (refused job) wp
    started :
        wp.running ≡ false
        → wp.stopping ≡ false
        → Move wp quiet
            (record wp { running = true; idle = wp.idle + wp.workers; waiting = suc wp.waiting })
    stop_began :
        wp.running ≡ true
        → wp.stopping ≡ false
        → wp.job_ch.closed ≡ false
        → Move wp quiet (record wp {
          running = false;
          job_ch = record wp.job_ch { closed = true };
          stopping = true;
        })
    stop_ended :
        wp.stopping ≡ true
        → alive wp ≡ 0
        → Move wp quiet (record wp {
          cancelled = true;
          result_ch = record wp.result_ch { closed = true };
          stopping = false;
        })
    admits :
        (job : WarmupJob D)
        → wp.running ≡ true
        → wp.stopping ≡ false
        → wp.job_ch.closed ≡ false
        → length wp.job_ch.buffer < wp.job_ch.capacity
        → Move wp
            (accepted job)
            (record wp { job_ch = record wp.job_ch { buffer = wp.job_ch.buffer ++ job ∷ [] } })
    left_cancelled : wp.cancelled ≡ true → Move wp quiet (record wp { idle = wp.idle - 1 })
    left_closed :
        wp.job_ch.buffer ≡ []
        → wp.job_ch.closed ≡ true
        → Move wp quiet (record wp { idle = wp.idle - 1 })
    took :
        (job : WarmupJob D) (rest : List (WarmupJob D))
        → wp.job_ch.buffer ≡ job ∷ rest
        → Move wp quiet (record wp {
          idle = wp.idle - 1;
          busy = job ∷ wp.busy;
          job_ch = record wp.job_ch { buffer = rest };
        })
    processed :
        (i : ℕ) (job : WarmupJob D) (rest : List (WarmupJob D)) (cache : S) (result : JobResult D)
        → take_out i wp.busy ≡ some (job, rest)
        → Move wp
            (stored job)
            (record wp { busy = rest; reporting = result ∷ wp.reporting; cache = cache })
    told :
        (rest : List (JobResult D)) (ch : Channel (JobResult D))
        → ch.closed ≡ wp.result_ch.closed
        → Move wp quiet (record wp { reporting = rest; idle = suc wp.idle; result_ch = ch })
    left_untold :
        (rest : List (JobResult D))
        → wp.cancelled ≡ true
        → Move wp quiet (record wp { reporting = rest })
    collected :
        (waiting : ℕ) (holding : List (JobResult D)) (ch : Channel (JobResult D))
        (jobs_processed total_duration errors : ℤ)
        → ch.closed ≡ wp.result_ch.closed
        → Move wp quiet (record wp {
          waiting = waiting;
          holding = holding;
          result_ch = ch;
          jobs_processed = jobs_processed;
          total_duration = total_duration;
          errors = errors;
        })
    resized :
        (n : ℕ)
        → wp.running ≡ false
        → wp.stopping ≡ false
        → Move wp (dropped wp.job_ch.buffer) (record wp {
          workers = suc n;
          job_ch = make_channel (suc n * 2);
          result_ch = make_channel (suc n);
        })

  -- A closed channel is closed again, or sent to.
  pub data Fault (wp : WorkerPool S D) : Type 0 where
    jobs_closed : wp.stopping ≡ false → wp.running ≡ true → wp.job_ch.closed ≡ true → Fault wp
    results_closed : wp.result_ch.closed ≡ true → Fault wp

  abbrev pub Explained : WorkerPool S D → Outcome S D → Type 0
  Explained wp (moved wp' o) = Move wp o wp'
  Explained wp panicked = Fault wp
  Explained wp blocked = Unit {0}
