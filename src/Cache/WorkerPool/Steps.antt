-- ===== src/Cache/WorkerPool/Steps.antt =====
-- The steps of worker_pool.go come to moves, or panic at a closed channel.
use task_management_api.Shared.{
  ℕ, zero, suc, ◌==◌, ◌≡◌, refl, inl, inr, Bool, true, false, not, ◌&&◌, none, some, Option-cases,
  List, [], ◌∷◌, arith, if◌then◌else◌,
}
use task_management_api.Shared.Int.{ℤ, pos, negsuc}
use task_management_api.Cache.Jobs.{WarmupJob}
use task_management_api.Cache.WorkerPool.Channels.{
  send_ready, receive_ready, put, close, Chosen, by_channel, by_done, by_default, choose,
}
use task_management_api.Cache.WorkerPool.{
  WorkerPool, JobResult, Outcome, start, stop, stop_waited, stop_closed, stopped, submit_job,
  submitted, resize, take_out, alive,
}
use task_management_api.Cache.WorkerPool.Workers.{
  CacheSet, worker, chosen, received, process, report, reported,
}
use task_management_api.Cache.WorkerPool.Collector.{
  result_collector, collector_chosen, collector_received, collect,
}
use task_management_api.Cache.WorkerPool.Events.{
  Event, starts, stops, stop_ends, submits, takes, processes, reports, receives, collects, resizes,
  step,
}
use task_management_api.Cache.WorkerPool.Moves.{
  stays, refuses, started, stop_began, stop_ended, admits, left_cancelled, left_closed, took,
  processed, told, left_untold, collected, resized, jobs_closed, results_closed, Explained,
}

choose-channel :
    (done_first ready cancelled : Bool)
    → choose done_first ready cancelled ≡ by_channel
    → ready ≡ true
unfolding choose
choose-channel done_first ready cancelled h = ground arith

choose-done :
    (done_first ready cancelled : Bool)
    → choose done_first ready cancelled ≡ by_done
    → cancelled ≡ true
unfolding choose
choose-done done_first ready cancelled h = ground arith

module _ {S D : Type 0} where
  if-Explained :
      (wp : WorkerPool S D) (b : Bool) (x y : Outcome S D)
      → (b ≡ true → Explained wp x)
      → (b ≡ false → Explained wp y)
      → Explained wp (if b then x else y)
  if-Explained wp true x y f g = f refl
  if-Explained wp false x y f g = g refl

  start-Explained : (wp : WorkerPool S D) → Explained wp (start wp)
  unfolding start
  start-Explained wp =
      if-Explained wp wp.stopping _ _ (λ e. tt)
        (λ e. if-Explained wp wp.running _ _ (λ f. stays) (λ f. started f e))

  submitted-Explained :
      (c : Chosen) (wp : WorkerPool S D) (job : WarmupJob D)
      → wp.stopping ≡ false
      → wp.running ≡ true
      → (c ≡ by_channel → send_ready wp.job_ch ≡ true)
      → Explained wp (submitted c wp job)
  unfolding submitted put send_ready
  submitted-Explained by_channel wp job s r f =
      if-Explained wp wp.job_ch.closed _ _ (λ e. jobs_closed s r e)
        (λ e. let ready = f refl in admits job r s e (ground arith))
  submitted-Explained by_done wp job s r f = refuses job
  submitted-Explained by_default wp job s r f = refuses job

  submit-Explained :
      (d : Bool) (wp : WorkerPool S D) (job : WarmupJob D) → Explained wp (submit_job d wp job)
  unfolding submit_job
  submit-Explained d wp job =
      if-Explained wp wp.stopping _ _ (λ e. tt)
        (λ e.
          if-Explained wp (not wp.running) _ _ (λ f. refuses job)
            (λ f.
              submitted-Explained _ wp job e (ground arith)
                (choose-channel d (send_ready wp.job_ch) wp.cancelled)))

  stop-Explained : (wp : WorkerPool S D) → Explained wp (stop wp)
  unfolding stop close stop_closed
  stop-Explained wp =
      if-Explained wp wp.stopping _ _ (λ e. tt)
        (λ e.
          if-Explained wp (not wp.running) _ _ (λ f. stays) (λ f. closing e (ground arith) _ refl))
    where
      closing :
          wp.stopping ≡ false
          → wp.running ≡ true
          → (b : Bool) → wp.job_ch.closed ≡ b
          → Explained wp
              (stop_closed (if b then none else some (record wp.job_ch { closed = true })) wp)
      closing e f true g = jobs_closed e f g
      closing e f false g = stop_began f e g

  stop_waited-Explained : (wp : WorkerPool S D) → Explained wp (stop_waited wp)
  unfolding stop_waited close stopped
  stop_waited-Explained wp =
      if-Explained wp (not (wp.stopping && (alive wp == 0))) _ _ (λ e. tt)
        (λ e. closing (ground arith) (ground arith) _ refl)
    where
      closing :
          wp.stopping ≡ true
          → alive wp ≡ 0
          → (b : Bool) → wp.result_ch.closed ≡ b
          → Explained wp
              (stopped (if b then none else some (record wp.result_ch { closed = true })) wp)
      closing e f true g = results_closed g
      closing e f false g = stop_ended e f

  received-Explained :
      (xs : List (WarmupJob D)) (wp : WorkerPool S D)
      → wp.job_ch.buffer ≡ xs
      → receive_ready wp.job_ch ≡ true
      → Explained wp (received xs wp)
  unfolding received receive_ready
  received-Explained [] wp e r = left_closed e (ground (arith, e, r))
  received-Explained (job ∷ rest) wp e r = took job rest e

  worker-Explained : (d : Bool) (wp : WorkerPool S D) → Explained wp (worker d wp)
  unfolding worker chosen
  worker-Explained d wp =
      if-Explained wp (wp.idle == 0) _ _ (λ e. tt)
        (λ e.
          by_choice _ (choose-channel d (receive_ready wp.job_ch) wp.cancelled)
            (choose-done d (receive_ready wp.job_ch) wp.cancelled))
    where
      by_choice :
          (c : Chosen)
          → (c ≡ by_channel → receive_ready wp.job_ch ≡ true)
          → (c ≡ by_done → wp.cancelled ≡ true)
          → Explained wp (chosen c wp)
      by_choice by_channel f g = received-Explained wp.job_ch.buffer wp refl (f refl)
      by_choice by_done f g = left_cancelled (g refl)
      by_choice by_default f g = tt

  reported-Explained :
      (c : Chosen) (result : JobResult D) (rest : List (JobResult D)) (wp : WorkerPool S D)
      → (c ≡ by_done → wp.cancelled ≡ true)
      → Explained wp (reported c result rest wp)
  unfolding reported put
  reported-Explained by_channel result rest wp f =
      if-Explained wp wp.result_ch.closed _ _ (λ e. results_closed e) (λ e. told rest _ refl)
  reported-Explained by_done result rest wp f = left_untold rest (f refl)
  reported-Explained by_default result rest wp f = told rest wp.result_ch refl

  report-Explained : (d : Bool) (i : ℕ) (wp : WorkerPool S D) → Explained wp (report d i wp)
  unfolding report
  report-Explained d i wp = elim (Option-cases (take_out i wp.reporting)) [
    | inl e ↦ rw (report, e) tt
    | inr ((result, rest), e) ↦
        rw (report, e)
          (reported-Explained _ result rest wp
            (choose-done d (send_ready wp.result_ch) wp.cancelled))
  ]

  collector_received-Explained :
      (xs : List (JobResult D)) (wp : WorkerPool S D) → Explained wp (collector_received xs wp)
  unfolding collector_received
  collector_received-Explained [] wp = collected _ _ _ _ _ _ refl
  collector_received-Explained (x ∷ xs) wp = collected _ _ _ _ _ _ refl

  collector-Explained : (d : Bool) (wp : WorkerPool S D) → Explained wp (result_collector d wp)
  unfolding result_collector collector_chosen
  collector-Explained d wp = if-Explained wp (wp.waiting == 0) _ _ (λ e. tt) (λ e. by_choice _)
    where
      by_choice : (c : Chosen) → Explained wp (collector_chosen c wp)
      by_choice by_channel = collector_received-Explained wp.result_ch.buffer wp
      by_choice by_done = collected _ _ _ _ _ _ refl
      by_choice by_default = tt

  collect-Explained : (i : ℕ) (wp : WorkerPool S D) → Explained wp (collect i wp)
  unfolding collect
  collect-Explained i wp =
      if-Explained wp wp.stopping _ _ (λ e. tt)
        (λ e. elim (Option-cases (take_out i wp.holding)) [
          | inl f ↦ rw f tt
          | inr ((result, rest), f) ↦ rw f (collected _ _ _ _ _ _ refl)
        ])

  resize-Explained : (n : ℤ) (wp : WorkerPool S D) → Explained wp (resize n wp)
  unfolding resize
  resize-Explained (pos zero) wp = stays
  resize-Explained (negsuc n) wp = stays
  resize-Explained (pos (suc n)) wp =
      if-Explained wp wp.running _ _ (λ e. tt)
        (λ e. if-Explained wp wp.stopping _ _ (λ f. tt) (λ f. resized n e f))

  process-Explained :
      (set : CacheSet S D) (i : ℕ) (duration : ℤ) (wp : WorkerPool S D)
      → Explained wp (process set i duration wp)
  unfolding process
  process-Explained set i duration wp = elim (Option-cases (take_out i wp.busy)) [
    | inl e ↦ rw (process, e) tt
    | inr ((job, rest), e) ↦ rw (process, e) (processed i job rest _ _ e)
  ]

  -- Every step is a move or a fault.
  pub step-Explained :
      (set : CacheSet S D) (e : Event D) (wp : WorkerPool S D) → Explained wp (step set e wp)
  unfolding step
  step-Explained set starts wp = start-Explained wp
  step-Explained set stops wp = stop-Explained wp
  step-Explained set stop_ends wp = stop_waited-Explained wp
  step-Explained set (submits d job) wp = submit-Explained d wp job
  step-Explained set (takes d) wp = worker-Explained d wp
  step-Explained set (processes i duration) wp = process-Explained set i duration wp
  step-Explained set (reports d i) wp = report-Explained d i wp
  step-Explained set (receives d) wp = collector-Explained d wp
  step-Explained set (collects i) wp = collect-Explained i wp
  step-Explained set (resizes n) wp = resize-Explained n wp
