-- ===== src/Cache/WorkerPool.antt =====
-- backend/internal/cache/worker_pool.go: the pool, its goroutines and the steps that they take. The
-- cache is a parameter over any state `S`. A goroutine is known by where it stands: an idle worker is
-- at its `select`, a busy one in `processJob`, a reporting one at the send of its result. `stopping` is
-- `Stop` at its `wg.Wait()`, which holds the mutex. A `select` with two ready cases takes either: the
-- argument `done_first` says which.
pub mod Channels
pub mod Workers
pub mod Collector
pub mod Events
pub mod Moves
pub mod Steps
pub mod Traces
pub mod Stores
pub mod Conservation
pub mod Phases
pub mod Stopping
pub mod Waiting
pub mod Draining
pub mod Restart
mod Tests
use task_management_api.Shared.{
  ℕ, zero, suc, ◌+◌, ◌-◌, ◌*◌, ◌/◌, Bool, true, false, Option, none, some, List, [], ◌∷◌, ◌++◌, not,
  ◌&&◌, ◌==◌, length, Bytes, if◌then◌else◌,
}
use task_management_api.Shared.Int.{ℤ, pos, negsuc, inc, add_int64, ltb_ℤ}
use task_management_api.Cache.Jobs.{WarmupJob}
use Channels.{
  Channel, make_channel, send_ready, receive_ready, put, close, Chosen, by_channel, by_done,
  by_default, choose,
}

pub record JobResult (D : Type 0) : Type 0 where
  pub job : WarmupJob D
  pub error : Option Bytes
  pub duration : ℤ

-- `reporting`, `waiting` and `holding` are the results of workers, the collectors at their `select`, and
-- the results of the collectors at the mutex.
pub record WorkerPool (S D : Type 0) : Type 0 where
  pub workers : ℕ
  pub job_ch : Channel (WarmupJob D)
  pub result_ch : Channel (JobResult D)
  pub cache : S
  pub cancelled : Bool
  pub running : Bool
  pub stopping : Bool
  pub idle : ℕ
  pub busy : List (WarmupJob D)
  pub reporting : List (JobResult D)
  pub waiting : ℕ
  pub holding : List (JobResult D)
  pub jobs_processed : ℤ
  pub total_duration : ℤ
  pub errors : ℤ

-- What a step shows of the jobs; `stored` is one call of `Set`, which may fail.
pub data Observation (D : Type 0) : Type 0 where
  accepted refused stored : WarmupJob D → Observation D
  dropped : List (WarmupJob D) → Observation D
  quiet : Observation D

-- `blocked` is a step that the goroutine cannot take now.
pub data Outcome (S D : Type 0) : Type 0 where
  moved : WorkerPool S D → Observation D → Outcome S D
  panicked blocked : Outcome S D

-- An element and the others.
unfoldable pub take_out : {A : Type 0} → ℕ → List A → Option (A × List A)
take_out n [] = none
take_out zero (x ∷ xs) = some (x, xs)
take_out (suc n) (x ∷ xs) = elim (take_out n xs) [
  | none ↦ none
  | some (y, rest) ↦ some (y, x ∷ rest)
]

-- Go's division of an int64 by a positive one, towards zero.
unfoldable pub quot : ℤ → ℕ → ℤ
quot (pos n) d = pos (n / d)
quot (negsuc n) d = if suc n / d == 0 then pos 0 else negsuc (suc n / d - 1)

pub record Stats : Type 0 where
  pub workers : ℕ
  pub running : Bool
  pub jobs_processed : ℤ
  pub total_errors : ℤ
  pub avg_duration : ℤ
  pub total_duration : ℤ
  pub queue_length : ℕ
  pub queue_capacity : ℕ

abbrev count_accepted : {D : Type 0} → Observation D → ℕ → ℕ
count_accepted (accepted job) n = suc n
count_accepted (refused job) n = n
count_accepted (stored job) n = n
count_accepted (dropped jobs) n = n
count_accepted quiet n = n

unfoldable pub positive_or : ℤ → ℕ → ℕ
positive_or (pos zero) d = d
positive_or (pos (suc n)) d = suc n
positive_or (negsuc n) d = d

unfoldable pub avg_duration : (total jobs : ℤ) → ℤ
unfolding quot
avg_duration total (pos zero) = pos 0
avg_duration total (pos (suc n)) = quot total (suc n)
avg_duration total (negsuc n) = pos 0

module _ {S D : Type 0} where
  unfoldable pub new_worker_pool : ℤ → S → WorkerPool S D
  unfolding positive_or make_channel
  new_worker_pool workers cache =
      let n = positive_or workers 3 in
      record {
        workers = n;
        job_ch = make_channel (n * 2);
        result_ch = make_channel n;
        cache = cache;
        cancelled = false;
        running = false;
        stopping = false;
        idle = 0;
        busy = [];
        reporting = [];
        waiting = 0;
        holding = [];
        jobs_processed = pos 0;
        total_duration = pos 0;
        errors = pos 0;
      }

  -- The goroutines that the wait group counts.
  abbrev pub alive : WorkerPool S D → ℕ
  alive wp = wp.idle + length wp.busy + length wp.reporting

  unfoldable pub start : WorkerPool S D → Outcome S D
  start wp =
      if wp.stopping
      then blocked
      else if wp.running
      then moved wp quiet
      else moved
          (record wp { running = true; idle = wp.idle + wp.workers; waiting = suc wp.waiting })
          quiet

  unfoldable pub stop_closed : Option (Channel (WarmupJob D)) → WorkerPool S D → Outcome S D
  stop_closed none wp = panicked
  stop_closed (some ch) wp =
      moved (record wp { running = false; job_ch = ch; stopping = true }) quiet

  -- `Stop` up to its wait, and from there.
  unfoldable pub stop : WorkerPool S D → Outcome S D
  unfolding close stop_closed
  stop wp =
      if wp.stopping
      then blocked
      else if not wp.running
      then moved wp quiet
      else stop_closed (close wp.job_ch) wp

  unfoldable pub stopped : Option (Channel (JobResult D)) → WorkerPool S D → Outcome S D
  stopped none wp = panicked
  stopped (some ch) wp =
      moved (record wp { cancelled = true; result_ch = ch; stopping = false }) quiet

  unfoldable pub stop_waited : WorkerPool S D → Outcome S D
  unfolding close stopped
  stop_waited wp =
      if not (wp.stopping && (alive wp == 0)) then blocked else stopped (close wp.result_ch) wp

  unfoldable pub submitted : Chosen → WorkerPool S D → WarmupJob D → Outcome S D
  unfolding put
  submitted by_channel wp job =
      if wp.job_ch.closed
      then panicked
      else moved (record wp { job_ch = put wp.job_ch job }) (accepted job)
  submitted by_done wp job = moved wp (refused job)
  submitted by_default wp job = moved wp (refused job)

  unfoldable pub submit_job : (done_first : Bool) → WorkerPool S D → WarmupJob D → Outcome S D
  unfolding choose send_ready submitted
  submit_job done_first wp job =
      if wp.stopping
      then blocked
      else if not wp.running
      then moved wp (refused job)
      else submitted (choose done_first (send_ready wp.job_ch) wp.cancelled) wp job

  -- The loop of one caller while nothing else moves; `none` is a panic, or `Stop` that holds the mutex.
  unfoldable pub submit_jobs :
      List (Bool × WarmupJob D) → WorkerPool S D → ℕ → Option (WorkerPool S D × ℕ)
  unfolding submit_job
  submit_jobs [] wp submitted = some (wp, submitted)
  submit_jobs ((done_first, job) ∷ jobs) wp submitted = elim (submit_job done_first wp job) [
    | panicked ↦ none
    | blocked ↦ none
    | moved wp' o ↦ submit_jobs jobs wp' (count_accepted o submitted)
  ]

  unfoldable pub get_stats : WorkerPool S D → Stats
  unfolding avg_duration
  get_stats wp = record {
    workers = wp.workers;
    running = wp.running;
    jobs_processed = wp.jobs_processed;
    total_errors = wp.errors;
    avg_duration = avg_duration wp.total_duration wp.jobs_processed;
    total_duration = wp.total_duration;
    queue_length = length wp.job_ch.buffer;
    queue_capacity = wp.job_ch.capacity;
  }

  unfoldable pub is_running : WorkerPool S D → Bool
  is_running wp = wp.running

  -- `Resize` between its `Stop` and its `Start`, on a pool that does not run.
  unfoldable pub resize : ℤ → WorkerPool S D → Outcome S D
  unfolding make_channel
  resize (pos zero) wp = moved wp quiet
  resize (negsuc n) wp = moved wp quiet
  resize (pos (suc n)) wp =
      if wp.running
      then blocked
      else if wp.stopping
      then blocked
      else moved
          (record wp {
            workers = suc n;
            job_ch = make_channel (suc n * 2);
            result_ch = make_channel (suc n);
          })
          (dropped wp.job_ch.buffer)
