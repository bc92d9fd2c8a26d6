-- ===== src/Cache/Warmer/Helpers.antt =====
-- `processBatch` of backend/internal/cache/warmer.go: the goroutines that share a batch. The cache is a
-- parameter over any state `S`. A goroutine is known by where it stands: an idle one is at its `range`,
-- one that received a job is at its `select`, and a busy one in `processJob`.
use task_management_api.Shared.{
  ℕ, suc, ◌+◌, ◌-◌, ◌==◌, ◌&&◌, ltb, leb, Bool, true, Option, none, some, List, [], ◌∷◌, length,
  if◌then◌else◌,
}
use task_management_api.Shared.Int.{ℤ, pos, negsuc}
use task_management_api.Cache.Jobs.{WarmupJob}
use task_management_api.Cache.WorkerPool.{take_out}
use task_management_api.Cache.WorkerPool.Workers.{CacheSet}
use task_management_api.Cache.WorkerPool.Channels.{Channel, make_channel, put, close}

-- `unsent` are the jobs that the caller has still to send.
pub record Batch (S D : Type 0) : Type 0 where
  pub unsent : List (WarmupJob D)
  pub job_ch : Channel (WarmupJob D)
  pub cache : S
  pub cancelled : Bool
  pub idle : ℕ
  pub received : List (WarmupJob D)
  pub busy : List (WarmupJob D)

-- Who moves: the caller at its sends, a goroutine at its `range`, the one with the job of that number at
-- its `select` or in `processJob`, or the owner of the context.
pub data Turn : Type 0 where
  sends receives cancels : Turn
  tests stores : ℕ → Turn

-- The number of goroutines that are started.
unfoldable pub helpers : (concurrency : ℤ) → (jobs : ℕ) → ℕ
helpers (negsuc n) jobs = 0
helpers (pos n) jobs = if leb n jobs then n else jobs

module _ {S D : Type 0} where
  unfoldable pub begin_batch :
      S → (cancelled : Bool) → List (WarmupJob D) → (concurrency : ℤ) → Batch S D
  unfolding helpers make_channel
  begin_batch cache cancelled jobs concurrency = record {
    unsent = jobs;
    job_ch = make_channel (length jobs);
    cache = cache;
    cancelled = cancelled;
    idle = helpers concurrency (length jobs);
    received = [];
    busy = [];
  }

  -- What the caller has still to do before its `wg.Wait()`.
  abbrev pub closed_batch : Option (Channel (WarmupJob D)) → Batch S D → Option (Batch S D)
  closed_batch none b = none
  closed_batch (some ch) b = some (record b { job_ch = ch })

  unfoldable pub sent : List (WarmupJob D) → Batch S D → Option (Batch S D)
  unfolding put close
  sent [] b = closed_batch (close b.job_ch) b
  sent (job ∷ rest) b =
      if ltb (length b.job_ch.buffer) b.job_ch.capacity
      then some (record b { unsent = rest; job_ch = put b.job_ch job })
      else none

  unfoldable pub range : List (WarmupJob D) → Batch S D → Option (Batch S D)
  range [] b = if b.job_ch.closed then some (record b { idle = b.idle - 1 }) else none
  range (job ∷ rest) b = some (record b {
    idle = b.idle - 1;
    received = job ∷ b.received;
    job_ch = record b.job_ch { buffer = rest };
  })

  unfoldable pub tested : Option (WarmupJob D × List (WarmupJob D)) → Batch S D → Option (Batch S D)
  tested none b = none
  tested (some (job, rest)) b =
      if b.cancelled
      then some (record b { received = rest })
      else some (record b { received = rest; busy = job ∷ b.busy })

  -- The `wg.Wait()` of the caller is over.
  unfoldable pub is_over : Batch S D → Bool
  is_over b =
      (length b.unsent == 0)
      && (b.job_ch.closed && (b.idle + length b.received + length b.busy == 0))

module _ {S D : Type 0} (set : CacheSet S D) where
  -- An error is logged.
  unfoldable pub process_job : S → WarmupJob D → S
  process_job cache job = (set cache job.key job.value job.ttl).0

  unfoldable pub processed :
      Option (WarmupJob D × List (WarmupJob D)) → Batch S D → Option (Batch S D)
  unfolding process_job
  processed none b = none
  processed (some (job, rest)) b =
      some (record b { busy = rest; idle = suc b.idle; cache = process_job b.cache job })

  -- `none` where that goroutine cannot move.
  unfoldable pub turn : Turn → Batch S D → Option (Batch S D)
  unfolding sent range tested processed take_out
  turn sends b = sent b.unsent b
  turn receives b = if b.idle == 0 then none else range b.job_ch.buffer b
  turn cancels b = some (record b { cancelled = true })
  turn (tests i) b = tested (take_out i b.received) b
  turn (stores i) b = processed (take_out i b.busy) b

  unfoldable pub run_turns : List Turn → Batch S D → Batch S D
  unfolding turn
  run_turns [] b = b
  run_turns (t ∷ ts) b = elim (turn t b) [ none ↦ run_turns ts b | some b' ↦ run_turns ts b' ]
