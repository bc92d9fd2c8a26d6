-- ===== src/Cache/WorkerPool/Draining.antt =====
-- The wait of `Stop` in worker_pool.go comes to its end.
use task_management_api.Shared.{
  ℕ, zero, suc, ◌+◌, ◌-◌, ◌*◌, ◌<◌, ◌≡◌, refl, ap, ◌⊎◌, inl, inr, true, false, List, [], ◌∷◌,
  length, arith,
}
use task_management_api.Shared.Int.{ℤ, pos}
use task_management_api.Cache.Jobs.{WarmupJob}
use task_management_api.Cache.WorkerPool.{
  WorkerPool, JobResult, moved, Observation, stored, quiet, alive, new_worker_pool,
}
use task_management_api.Cache.WorkerPool.Workers.{CacheSet}
use task_management_api.Cache.WorkerPool.Phases.{
  Phase, unstarted, serving, draining, stopped, clash, run-Phase,
}
use task_management_api.Cache.WorkerPool.Events.{
  Event, stop_ends, takes, processes, reports, ran, accepted_jobs, step, run,
}
use task_management_api.Cache.WorkerPool.Waiting.{
  IsWaiting, report-step, process-step, exit-step, take-step, end-step,
}

List-cases : {A : Type 0} (xs : List A) → (xs ≡ []) ⊎ ((y : A) × (ys : List A) × (xs ≡ y ∷ ys))
List-cases [] = inl refl
List-cases (y ∷ ys) = inr (y, ys, refl)

zero-cases : (n : ℕ) → (n ≡ 0) ⊎ (0 < n)
zero-cases zero = inl refl
zero-cases (suc n) = inr (omega arith)

module _ {S D : Type 0} where
  -- What is left to do, weighed.
  abbrev left : WorkerPool S D → ℕ
  left wp = length wp.job_ch.buffer * 4 + length wp.busy * 3 + length wp.reporting * 2 + wp.idle

  -- A run to the end of the wait in which no job is accepted.
  abbrev pub Ends : CacheSet S D → WorkerPool S D → Type 0
  Ends set wp =
      (es : List (Event D)) × (last : WorkerPool S D) × (os : List (Observation D)) × (run set es wp
        ≡ ran last os)
      × (last.stopping ≡ false)
      × (accepted_jobs os ≡ [])

  Ends-quiet :
      (set : CacheSet S D) (wp next : WorkerPool S D) (e : Event D)
      → step set e wp ≡ moved next quiet
      → Ends set next
      → Ends set wp
  unfolding run
  Ends-quiet set wp next e h (es, last, os, f, s, a) =
      (e ∷ es, last, quiet ∷ os, rw (run, h, f) refl, s, a)

  Ends-stored :
      (set : CacheSet S D) (wp next : WorkerPool S D) (e : Event D) (job : WarmupJob D)
      → step set e wp ≡ moved next (stored job)
      → Ends set next
      → Ends set wp
  unfolding run
  Ends-stored set wp next e job h (es, last, os, f, s, a) =
      (e ∷ es, last, stored job ∷ os, rw (run, h, f) refl, s, a)

  -- Either all workers are gone, or one has a step to take that leaves less to do.
  abbrev Progress : CacheSet S D → WorkerPool S D → Type 0
  Progress set wp =
      (alive wp ≡ 0)
      ⊎ ((next : WorkerPool S D) × IsWaiting next
          × (left next < left wp)
          × (Ends set next → Ends set wp))

  report-Progress :
      (set : CacheSet S D) (wp : WorkerPool S D) (r : JobResult D) (rest : List (JobResult D))
      → IsWaiting wp
      → wp.reporting ≡ r ∷ rest
      → Progress set wp
  report-Progress set wp r rest w e =
      let (ch, o, h) = report-step set wp r rest w e in
      let l = ap length e in
      inr (
        _,
        record {
          waits = w.waits;
          not_cancelled = w.not_cancelled;
          jobs_closed = w.jobs_closed;
          results_open = o;
        },
        omega (arith, l),
        Ends-quiet set wp _ (reports false 0) h,
      )

  process-Progress :
      (set : CacheSet S D) (wp : WorkerPool S D) (job : WarmupJob D) (rest : List (WarmupJob D))
      → IsWaiting wp
      → wp.busy ≡ job ∷ rest
      → Progress set wp
  process-Progress set wp job rest w e =
      let (cache, result, h) = process-step set wp job rest e in
      let l = ap length e in
      inr (
        _,
        record {
          waits = w.waits;
          not_cancelled = w.not_cancelled;
          jobs_closed = w.jobs_closed;
          results_open = w.results_open;
        },
        omega (arith, l),
        Ends-stored set wp _ (processes 0 (pos 0)) job h,
      )

  worker-Progress :
      (set : CacheSet S D) (wp : WorkerPool S D) → IsWaiting wp → 0 < wp.idle → Progress set wp
  worker-Progress set wp w i = elim (List-cases wp.job_ch.buffer) [
    | inl e ↦ inr (
      record wp { idle = wp.idle - 1 },
      record {
        waits = w.waits;
        not_cancelled = w.not_cancelled;
        jobs_closed = w.jobs_closed;
        results_open = w.results_open;
      },
      omega (arith, i),
      Ends-quiet set wp _ (takes false) (exit-step set wp w i e),
    )
    | inr (job, rest, e) ↦
        let l = ap length e in
        inr (
          record wp {
            idle = wp.idle - 1;
            busy = job ∷ wp.busy;
            job_ch = record wp.job_ch { buffer = rest };
          },
          record {
            waits = w.waits;
            not_cancelled = w.not_cancelled;
            jobs_closed = w.jobs_closed;
            results_open = w.results_open;
          },
          omega (arith, i, l),
          Ends-quiet set wp _ (takes false) (take-step set wp job rest i w.not_cancelled e),
        )
  ]

  progress : (set : CacheSet S D) (wp : WorkerPool S D) → IsWaiting wp → Progress set wp
  progress set wp w = elim (List-cases wp.reporting) [
    | inr (r, rest, e) ↦ report-Progress set wp r rest w e
    | inl e ↦ elim (List-cases wp.busy) [
      | inr (job, rest, f) ↦ process-Progress set wp job rest w f
      | inl f ↦ elim (zero-cases wp.idle) [
        | inl g ↦ inl (omega (arith, ap length e, ap length f, g))
        | inr g ↦ worker-Progress set wp w g
      ]
    ]
  ]

  drain :
      (n : ℕ) (set : CacheSet S D) (wp : WorkerPool S D) → IsWaiting wp → left wp < n → Ends set wp
  unfolding run
  drain zero set wp w h = absurd (omega (arith, h))
  drain (suc n) set wp w h = elim (progress set wp w) [
    | inl z ↦ Ends-quiet set wp _ stop_ends (end-step set wp w z) ([], _, [], refl, refl, refl)
    | inr (next, v, l, f) ↦ f (drain n set next v (omega (arith, l, h)))
  ]

  stopping-IsWaiting :
      (wp : WorkerPool S D) → Phase wp → wp.stopping ≡ true → wp.cancelled ≡ false → IsWaiting wp
  stopping-IsWaiting wp (unstarted a b c d x) s n = clash wp.stopping s b
  stopping-IsWaiting wp (serving a b c d x) s n = clash wp.stopping s b
  stopping-IsWaiting wp (draining a b c d x) s n = record {
    waits = b;
    not_cancelled = n;
    jobs_closed = c;
    results_open = d;
  }
  stopping-IsWaiting wp (stopped x) s n = clash wp.cancelled x n

  -- Wherever a new pool stands when its first `Stop` waits, the workers can go on so that the wait ends,
  -- and no job is accepted on the way.
  pub stop-Ends :
      (set : CacheSet S D) (workers : ℤ) (cache : S) (es : List (Event D)) (wp : WorkerPool S D)
      (os : List (Observation D))
      → run set es (new_worker_pool workers cache) ≡ ran wp os
      → wp.stopping ≡ true
      → wp.cancelled ≡ false
      → Ends set wp
  stop-Ends set workers cache es wp os h s c =
      drain (suc (left wp)) set wp
        (stopping-IsWaiting wp (run-Phase set workers cache es wp os h) s c) (omega arith)
