-- ===== src/Cache/WorkerPool/Waiting.antt =====
-- The steps of the workers of worker_pool.go while `Stop` waits.
use task_management_api.Shared.{
  suc, ◌-◌, ◌<◌, ◌≡◌, refl, ◌⊎◌, inl, inr, true, false, Bool, some, List, [], ◌∷◌, arith,
  if◌then◌else◌,
}
use task_management_api.Shared.Int.{pos}
use task_management_api.Cache.Jobs.{WarmupJob}
use task_management_api.Cache.WorkerPool.{
  WorkerPool, JobResult, moved, stored, quiet, take_out, alive, stop_waited, stopped as stopped_at,
}
use task_management_api.Cache.WorkerPool.Workers.{
  CacheSet, worker, chosen, received, process, process_job, report, reported,
}
use task_management_api.Cache.WorkerPool.Channels.{
  Channel, send_ready, receive_ready, put, close, by_channel, by_default, choose,
}
use task_management_api.Cache.WorkerPool.Events.{stop_ends, takes, processes, reports, step}

if-false : {A : Type 0} (b : Bool) (x y : A) → b ≡ false → (if b then x else y) ≡ y
if-false b x y e = rw e refl

choose-not_done :
    (ready : Bool)
    → (choose false ready false ≡ by_channel) ⊎ (choose false ready false ≡ by_default)
unfolding choose
choose-not_done true = inl refl
choose-not_done false = inr refl

take_out-first :
    {A : Type 0} (xs : List A) (x : A) (rest : List A)
    → xs ≡ x ∷ rest
    → take_out 0 xs ≡ some (x, rest)
unfolding take_out
take_out-first xs x rest e = rw e refl

receive-ready : {A : Type 0} (ch : Channel A) → ch.closed ≡ true → receive_ready ch ≡ true
unfolding receive_ready
receive-ready {A} ch e = by_buffer ch.buffer
  where
    by_buffer : (xs : List A) → elim xs [ [] ↦ ch.closed | y ∷ ys ↦ true ] ≡ true
    by_buffer [] = e
    by_buffer (y ∷ ys) = refl

module _ {S D : Type 0} where
  pub record IsWaiting (wp : WorkerPool S D) : Type 0 where
    pub waits : wp.stopping ≡ true
    pub not_cancelled : wp.cancelled ≡ false
    pub jobs_closed : wp.job_ch.closed ≡ true
    pub results_open : wp.result_ch.closed ≡ false

  pub report-step :
      (set : CacheSet S D) (wp : WorkerPool S D) (r : JobResult D) (rest : List (JobResult D))
      → IsWaiting wp
      → wp.reporting ≡ r ∷ rest
      → (ch : Channel (JobResult D)) × (ch.closed ≡ false)
        × (step set (reports false 0) wp
            ≡ moved (record wp { reporting = rest; idle = suc wp.idle; result_ch = ch }) quiet)
  unfolding step report reported put
  report-step set wp r rest w e =
      let t = take_out-first wp.reporting r rest e in
      let c = w.not_cancelled in
      elim (choose-not_done (send_ready wp.result_ch)) [
        | inl f ↦ (
          put wp.result_ch r,
          w.results_open,
          rw (report, t, c, f) (if-false wp.result_ch.closed _ _ w.results_open),
        )
        | inr f ↦ (wp.result_ch, w.results_open, rw (report, t, c, f) refl)
      ]

  pub process-step :
      (set : CacheSet S D) (wp : WorkerPool S D) (job : WarmupJob D) (rest : List (WarmupJob D))
      → wp.busy ≡ job ∷ rest
      → (cache : S) × (result : JobResult D) × (step set (processes 0 (pos 0)) wp
          ≡ moved
              (record wp { busy = rest; reporting = result ∷ wp.reporting; cache = cache })
              (stored job))
  unfolding step process
  process-step set wp job rest e =
      let done = process_job set wp.cache job (pos 0) in
      (done.0, done.1, rw (process, take_out-first wp.busy job rest e) refl)

  pub exit-step :
      (set : CacheSet S D) (wp : WorkerPool S D)
      → IsWaiting wp
      → 0 < wp.idle
      → wp.job_ch.buffer ≡ []
      → step set (takes false) wp ≡ moved (record wp { idle = wp.idle - 1 }) quiet
  unfolding step worker chosen received choose
  exit-step set wp w i e =
      ground (arith, i, e, receive-ready wp.job_ch w.jobs_closed, w.not_cancelled)

  pub take-step :
      (set : CacheSet S D) (wp : WorkerPool S D) (job : WarmupJob D) (rest : List (WarmupJob D))
      → 0 < wp.idle
      → wp.cancelled ≡ false
      → wp.job_ch.buffer ≡ job ∷ rest
      → step set (takes false) wp
        ≡ moved
            (record wp {
              idle = wp.idle - 1;
              busy = job ∷ wp.busy;
              job_ch = record wp.job_ch { buffer = rest };
            })
            quiet
  unfolding step worker chosen received choose receive_ready
  take-step set wp job rest i c e = ground (arith, i, c, e)

  pub end-step :
      (set : CacheSet S D) (wp : WorkerPool S D)
      → IsWaiting wp
      → alive wp ≡ 0
      → step set stop_ends wp
        ≡ moved
            (record wp {
              cancelled = true;
              result_ch = record wp.result_ch { closed = true };
              stopping = false;
            })
            quiet
  unfolding step stop_waited stopped_at close
  end-step set wp w e = ground (arith, w.waits, w.results_open, e)
