-- ===== src/Cache/WorkerPool/Stores.antt =====
-- What the workers of worker_pool.go do to the cache.
use task_management_api.Shared.{
  ℕ, ◌==◌, ◌≡◌, refl, ap, ◌∙◌, suc, zero, inl, inr, Bool, not, ◌&&◌, none, some, Option,
  Option-cases, List, [], ◌∷◌, both_branches,
}
use task_management_api.Shared.Int.{ℤ, pos, negsuc}
use task_management_api.Cache.Jobs.{WarmupJob}
use task_management_api.Cache.WorkerPool.Channels.{Channel, Chosen, by_channel, by_done, by_default}
use task_management_api.Cache.WorkerPool.{
  WorkerPool, JobResult, Outcome, moved, panicked, blocked, Observation, accepted, refused, stored,
  dropped, quiet, start, stop, stop_waited, stop_closed, stopped, submit_job, submitted, resize,
  take_out, alive,
}
use task_management_api.Cache.WorkerPool.Workers.{
  CacheSet, worker, chosen, received, process_job, process, report, reported,
}
use task_management_api.Cache.WorkerPool.Collector.{
  result_collector, collector_chosen, collector_received, collect,
}
use task_management_api.Cache.WorkerPool.Events.{
  Event, starts, stops, stop_ends, submits, takes, processes, reports, receives, collects, resizes,
  Ran, ran, ran_panicked, ran_blocked, observed, stored_jobs, step, run,
}

module _ {S D : Type 0} (set : CacheSet S D) where
  -- The cache after `Set` of each job, with its key, value and time to live, one after the other.
  abbrev pub all_set : S → List (WarmupJob D) → S
  all_set cache [] = cache
  all_set cache (job ∷ jobs) = all_set (set cache job.key job.value job.ttl).0 jobs

  -- A step changes the cache by `Set` of the job it stores, and not otherwise.
  abbrev Tied : S → Outcome S D → Type 0
  Tied cache (moved wp o) = wp.cache ≡ all_set cache (stored_jobs (o ∷ []))
  Tied cache panicked = Unit {0}
  Tied cache blocked = Unit {0}

  submitted-Tied :
      (c : Chosen) (wp : WorkerPool S D) (job : WarmupJob D) → Tied wp.cache (submitted c wp job)
  unfolding submitted
  submitted-Tied by_channel wp job =
      both_branches (Tied wp.cache) wp.job_ch.closed (λ e. tt) (λ e. refl)
  submitted-Tied by_done wp job = refl
  submitted-Tied by_default wp job = refl

  stop_closed-Tied :
      (x : Option (Channel (WarmupJob D))) (wp : WorkerPool S D) → Tied wp.cache (stop_closed x wp)
  unfolding stop_closed
  stop_closed-Tied none wp = tt
  stop_closed-Tied (some ch) wp = refl

  stopped-Tied :
      (x : Option (Channel (JobResult D))) (wp : WorkerPool S D) → Tied wp.cache (stopped x wp)
  unfolding stopped
  stopped-Tied none wp = tt
  stopped-Tied (some ch) wp = refl

  received-Tied : (xs : List (WarmupJob D)) (wp : WorkerPool S D) → Tied wp.cache (received xs wp)
  unfolding received
  received-Tied [] wp = refl
  received-Tied (job ∷ rest) wp = refl

  chosen-Tied : (c : Chosen) (wp : WorkerPool S D) → Tied wp.cache (chosen c wp)
  unfolding chosen
  chosen-Tied by_channel wp = received-Tied wp.job_ch.buffer wp
  chosen-Tied by_done wp = refl
  chosen-Tied by_default wp = tt

  reported-Tied :
      (c : Chosen) (result : JobResult D) (rest : List (JobResult D)) (wp : WorkerPool S D)
      → Tied wp.cache (reported c result rest wp)
  unfolding reported
  reported-Tied by_channel result rest wp =
      both_branches (Tied wp.cache) wp.result_ch.closed (λ e. tt) (λ e. refl)
  reported-Tied by_done result rest wp = refl
  reported-Tied by_default result rest wp = refl

  collector_received-Tied :
      (xs : List (JobResult D)) (wp : WorkerPool S D) → Tied wp.cache (collector_received xs wp)
  unfolding collector_received
  collector_received-Tied [] wp = refl
  collector_received-Tied (x ∷ xs) wp = refl

  collector_chosen-Tied : (c : Chosen) (wp : WorkerPool S D) → Tied wp.cache (collector_chosen c wp)
  unfolding collector_chosen
  collector_chosen-Tied by_channel wp = collector_received-Tied wp.result_ch.buffer wp
  collector_chosen-Tied by_done wp = refl
  collector_chosen-Tied by_default wp = tt

  report-Tied : (d : Bool) (i : ℕ) (wp : WorkerPool S D) → Tied wp.cache (report d i wp)
  unfolding report
  report-Tied d i wp = elim (Option-cases (take_out i wp.reporting)) [
    | inl e ↦ rw (report, e) tt
    | inr ((result, rest), e) ↦ rw (report, e) (reported-Tied _ result rest wp)
  ]

  collect-Tied : (i : ℕ) (wp : WorkerPool S D) → Tied wp.cache (collect i wp)
  unfolding collect
  collect-Tied i wp =
      both_branches (Tied wp.cache) wp.stopping (λ e. tt)
        (λ e. elim (Option-cases (take_out i wp.holding)) [
          | inl f ↦ rw f tt
          | inr ((result, rest), f) ↦ rw f refl
        ])

  resize-Tied : (n : ℤ) (wp : WorkerPool S D) → Tied wp.cache (resize n wp)
  unfolding resize
  resize-Tied (pos zero) wp = refl
  resize-Tied (negsuc n) wp = refl
  resize-Tied (pos (suc n)) wp =
      both_branches (Tied wp.cache) wp.running (λ e. tt)
        (λ e. both_branches (Tied wp.cache) wp.stopping (λ f. tt) (λ f. refl))

  process-Tied :
      (i : ℕ) (duration : ℤ) (wp : WorkerPool S D) → Tied wp.cache (process set i duration wp)
  unfolding process process_job
  process-Tied i duration wp = elim (Option-cases (take_out i wp.busy)) [
    | inl e ↦ rw (process, e) tt
    | inr ((job, rest), e) ↦ rw (process, e) refl
  ]

  step-Tied : (e : Event D) (wp : WorkerPool S D) → Tied wp.cache (step set e wp)
  unfolding step start stop stop_waited submit_job worker result_collector
  step-Tied starts wp =
      both_branches (Tied wp.cache) wp.stopping (λ e. tt)
        (λ e. both_branches (Tied wp.cache) wp.running (λ f. refl) (λ f. refl))
  step-Tied stops wp =
      both_branches (Tied wp.cache) wp.stopping (λ e. tt)
        (λ e.
          both_branches (Tied wp.cache) (not wp.running) (λ f. refl) (λ f. stop_closed-Tied _ wp))
  step-Tied stop_ends wp =
      both_branches (Tied wp.cache) (not (wp.stopping && (alive wp == 0))) (λ e. tt)
        (λ e. stopped-Tied _ wp)
  step-Tied (submits d job) wp =
      both_branches (Tied wp.cache) wp.stopping (λ e. tt)
        (λ e.
          both_branches (Tied wp.cache) (not wp.running) (λ f. refl) (λ f. submitted-Tied _ wp job))
  step-Tied (takes d) wp =
      both_branches (Tied wp.cache) (wp.idle == 0) (λ e. tt) (λ e. chosen-Tied _ wp)
  step-Tied (processes i duration) wp = process-Tied i duration wp
  step-Tied (reports d i) wp = report-Tied d i wp
  step-Tied (receives d) wp =
      both_branches (Tied wp.cache) (wp.waiting == 0) (λ e. tt) (λ e. collector_chosen-Tied _ wp)
  step-Tied (collects i) wp = collect-Tied i wp
  step-Tied (resizes n) wp = resize-Tied n wp

  stored_jobs-step :
      (cache : S) (o : Observation D) (os : List (Observation D))
      → all_set (all_set cache (stored_jobs (o ∷ []))) (stored_jobs os)
        ≡ all_set cache (stored_jobs (o ∷ os))
  stored_jobs-step cache (accepted job) os = refl
  stored_jobs-step cache (refused job) os = refl
  stored_jobs-step cache (stored job) os = refl
  stored_jobs-step cache (dropped jobs) os = refl
  stored_jobs-step cache quiet os = refl

  abbrev RanTied : S → Ran S D → Type 0
  RanTied cache (ran wp os) = wp.cache ≡ all_set cache (stored_jobs os)
  RanTied cache ran_panicked = Unit {0}
  RanTied cache ran_blocked = Unit {0}

  observed-RanTied :
      (cache : S) (next : WorkerPool S D) (o : Observation D) (r : Ran S D)
      → next.cache ≡ all_set cache (stored_jobs (o ∷ []))
      → RanTied next.cache r
      → RanTied cache (observed o r)
  observed-RanTied cache next o (ran wp os) e h =
      h ∙ (ap (λ (c : S). all_set c (stored_jobs os)) e ∙ stored_jobs-step cache o os)
  observed-RanTied cache next o ran_panicked e h = tt
  observed-RanTied cache next o ran_blocked e h = tt

  run-RanTied : (es : List (Event D)) (wp : WorkerPool S D) → RanTied wp.cache (run set es wp)
  unfolding run
  run-RanTied [] wp = refl
  run-RanTied (e ∷ es) wp = by_outcome (step set e wp) (step-Tied e wp) (run-RanTied es)
    where
      by_outcome :
          (out : Outcome S D)
          → Tied wp.cache out
          → ((next : WorkerPool S D) → RanTied next.cache (run set es next))
          → RanTied wp.cache (elim out [
            | panicked ↦ ran_panicked
            | blocked ↦ ran_blocked
            | moved wp' o ↦ observed o (run set es wp')
          ])
      by_outcome panicked x f = tt
      by_outcome blocked x f = tt
      by_outcome (moved wp' o) x f = observed-RanTied wp.cache wp' o _ x (f wp')

  -- A run leaves the cache as `Set` of the stored jobs, in their order, makes it.
  pub run-all_set :
      (es : List (Event D)) (wp last : WorkerPool S D) (os : List (Observation D))
      → run set es wp ≡ ran last os
      → last.cache ≡ all_set wp.cache (stored_jobs os)
  run-all_set es wp last os h =
      let t : RanTied wp.cache (run set es wp) = run-RanTied es wp in rw h at t
