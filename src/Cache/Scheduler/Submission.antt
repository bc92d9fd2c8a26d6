-- ===== src/Cache/Scheduler/Submission.antt =====
-- The loop of `SubmitJobs` on a pool that takes jobs, while nothing else moves.
use task_management_api.Shared.{
  ℕ, zero, suc, ◌+◌, ◌-◌, ◌<◌, ◌≡◌, refl, sym, ap₂, ◌∙◌, Bool, true, false, Option, some, List, [],
  ◌∷◌, ◌++◌, length, length-append, take, arith,
}
use mathlib.Core.List.{append-nil, append_assoc}
use task_management_api.Cache.Jobs.{WarmupJob}
use task_management_api.Cache.WorkerPool.{
  WorkerPool, moved, accepted, refused, submit_job, submit_jobs, submitted as pool_submitted,
}
use task_management_api.Cache.WorkerPool.Channels.{choose, send_ready, put}
use task_management_api.Cache.Scheduler.{Coin, with_coins}

module _ {S D : Type 0} where
  -- A pool that takes jobs: it runs, and its channel is open.
  pub record IsOpen (wp : WorkerPool S D) : Type 0 where
    pub runs : wp.running ≡ true
    pub not_stopping : wp.stopping ≡ false
    pub not_cancelled : wp.cancelled ≡ false
    pub not_closed : wp.job_ch.closed ≡ false

  -- The places left in the channel.
  abbrev pub room : WorkerPool S D → ℕ
  room wp = wp.job_ch.capacity - length wp.job_ch.buffer

  abbrev pub with_buffer : WorkerPool S D → List (WarmupJob D) → WorkerPool S D
  with_buffer wp js = record wp { job_ch = record wp.job_ch { buffer = wp.job_ch.buffer ++ js } }

  submit_job-accepted :
      (d : Bool) (wp : WorkerPool S D) (job : WarmupJob D)
      → IsOpen wp
      → 0 < room wp
      → submit_job d wp job ≡ moved (with_buffer wp (job ∷ [])) (accepted job)
  unfolding submit_job pool_submitted choose send_ready put
  submit_job-accepted d wp job o h =
      ground (arith, o.runs, o.not_stopping, o.not_cancelled, o.not_closed)

  submit_job-refused :
      (d : Bool) (wp : WorkerPool S D) (job : WarmupJob D)
      → IsOpen wp
      → room wp ≡ 0
      → submit_job d wp job ≡ moved wp (refused job)
  unfolding submit_job pool_submitted choose send_ready
  submit_job-refused d wp job o h =
      ground (arith, o.runs, o.not_stopping, o.not_cancelled, o.not_closed)

  submit_jobs-refused :
      (coin : Coin) (i : ℕ) (js : List (WarmupJob D)) (wp : WorkerPool S D) (n : ℕ)
      → IsOpen wp
      → room wp ≡ 0
      → submit_jobs (with_coins coin i js) wp n ≡ some (wp, n)
  unfolding with_coins submit_jobs
  submit_jobs-refused coin i [] wp n o h = refl
  submit_jobs-refused coin i (job ∷ js) wp n o h =
      rw (submit_jobs, submit_job-refused (coin i) wp job o h)
        (submit_jobs-refused coin (suc i) js wp n o h)

  abbrev at_buffer : WorkerPool S D → List (WarmupJob D) → ℕ → Option (WorkerPool S D × ℕ)
  at_buffer wp b n = some (record wp { job_ch = record wp.job_ch { buffer = b } }, n)

  pub submit_jobs-room :
      (k : ℕ) (coin : Coin) (i : ℕ) (js : List (WarmupJob D)) (wp : WorkerPool S D) (n : ℕ)
      → IsOpen wp
      → room wp ≡ k
      → submit_jobs (with_coins coin i js) wp n
        ≡ some (with_buffer wp (take k js), n + length (take k js))
  unfolding with_coins submit_jobs
  submit_jobs-room zero coin i js wp n o h =
      submit_jobs-refused coin i js wp n o h
      ∙ ap₂ (at_buffer wp) (sym (append-nil wp.job_ch.buffer)) (omega arith)
  submit_jobs-room (suc k) coin i [] wp n o h =
      ap₂ (at_buffer wp) (sym (append-nil wp.job_ch.buffer)) (omega arith)
  submit_jobs-room (suc k) coin i (job ∷ js) wp n o h =
      let wp' = with_buffer wp (job ∷ []) in
      let o' : IsOpen wp' = record {
        runs = o.runs;
        not_stopping = o.not_stopping;
        not_cancelled = o.not_cancelled;
        not_closed = o.not_closed;
      } in
      let r : room wp' ≡ k = omega (arith, h, length-append wp.job_ch.buffer (job ∷ [])) in
      rw (submit_jobs, submit_job-accepted (coin i) wp job o (omega (arith, h)))
        (submit_jobs-room k coin (suc i) js wp' (suc n) o' r
          ∙ ap₂ (at_buffer wp) (append_assoc wp.job_ch.buffer (job ∷ []) (take k js)) (omega arith))
