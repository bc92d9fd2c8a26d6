-- ===== src/Cache/WorkerPool/Phases.antt =====
-- The phases of a pool of worker_pool.go up to the end of its first `Stop`.
use task_management_api.Shared.{
  zero, suc, ◌<◌, ◌≡◌, refl, ◌∙◌, sym, ◌⊎◌, inl, inr, true, false, Bool, List, [], ◌∷◌, arith,
}
use task_management_api.Shared.Int.{ℤ, pos, negsuc}
use mathlib.Core.List.{append-nil}
use task_management_api.Cache.WorkerPool.{
  WorkerPool, Observation, accepted, refused, stored, dropped, quiet, new_worker_pool, alive,
  positive_or,
}
use task_management_api.Cache.WorkerPool.Workers.{CacheSet}
use task_management_api.Cache.WorkerPool.Channels.{make_channel}
use task_management_api.Cache.WorkerPool.Events.{Event, ran, dropped_jobs, run}
use task_management_api.Cache.WorkerPool.Moves.{
  Move, stays, refuses, started, stop_began, stop_ended, admits, left_cancelled, left_closed, took,
  processed, told, left_untold, collected, resized, Fault, jobs_closed, results_closed,
}
use task_management_api.Cache.WorkerPool.Traces.{Trace, ends, moves, run-Trace}

pub clash : {A : Type 0} (b : Bool) → b ≡ true → b ≡ false → A
clash b e f = absurd (ground arith)

dropped-first :
    {D : Type 0} (o : Observation D) (os : List (Observation D))
    → dropped_jobs (o ∷ []) ≡ []
    → dropped_jobs os ≡ []
    → dropped_jobs (o ∷ os) ≡ []
dropped-first (accepted job) os e f = f
dropped-first (refused job) os e f = f
dropped-first (stored job) os e f = f
dropped-first (dropped jobs) os e f = rw (sym (append-nil jobs) ∙ e) f
dropped-first quiet os e f = f

pub positive_or-positive : (n : ℤ) → 0 < positive_or n 3
unfolding positive_or
positive_or-positive (pos zero) = omega arith
positive_or-positive (pos (suc n)) = omega arith
positive_or-positive (negsuc n) = omega arith

module _ {S D : Type 0} where
  -- Not started yet, at work, with `Stop` waiting, or once stopped.
  pub data Phase (wp : WorkerPool S D) : Type 0 where
    unstarted :
        wp.running ≡ false
        → wp.stopping ≡ false
        → wp.job_ch.closed ≡ false
        → wp.result_ch.closed ≡ false
        → wp.job_ch.buffer ≡ []
        → Phase wp
    serving :
        wp.running ≡ true
        → wp.stopping ≡ false
        → wp.job_ch.closed ≡ false
        → wp.result_ch.closed ≡ false
        → 0 < alive wp
        → Phase wp
    draining :
        wp.running ≡ false
        → wp.stopping ≡ true
        → wp.job_ch.closed ≡ true
        → wp.result_ch.closed ≡ false
        → (0 < alive wp) ⊎ (wp.job_ch.buffer ≡ [])
        → Phase wp
    stopped : wp.cancelled ≡ true → Phase wp

  Move-Phase :
      (wp wp' : WorkerPool S D) (o : Observation D)
      → Move wp o wp'
      → 0 < wp.workers
      → Phase wp
      → Phase wp'
  unfolding make_channel
  Move-Phase wp wp' o stays w p = p
  Move-Phase wp wp' o (refuses job) w p = p
  Move-Phase wp wp' o (started e f) w (unstarted a b c d x) = serving refl b c d (omega arith)
  Move-Phase wp wp' o (started e f) w (serving a b c d x) = clash wp.running a e
  Move-Phase wp wp' o (started e f) w (draining a b c d x) = clash wp.stopping b f
  Move-Phase wp wp' o (started e f) w (stopped x) = stopped x
  Move-Phase wp wp' o (stop_began e f g) w (unstarted a b c d x) = clash wp.running e a
  Move-Phase wp wp' o (stop_began e f g) w (serving a b c d x) = draining refl refl refl d (inl x)
  Move-Phase wp wp' o (stop_began e f g) w (draining a b c d x) = clash wp.running e a
  Move-Phase wp wp' o (stop_began e f g) w (stopped x) = stopped x
  Move-Phase wp wp' o (stop_ended e f) w p = stopped refl
  Move-Phase wp wp' o (admits job e f g h) w (unstarted a b c d x) = clash wp.running e a
  Move-Phase wp wp' o (admits job e f g h) w (serving a b c d x) = serving a b c d x
  Move-Phase wp wp' o (admits job e f g h) w (draining a b c d x) = clash wp.running e a
  Move-Phase wp wp' o (admits job e f g h) w (stopped x) = stopped x
  Move-Phase wp wp' o (left_cancelled e) w p = stopped e
  Move-Phase wp wp' o (left_closed e f) w (unstarted a b c d x) = clash wp.job_ch.closed f c
  Move-Phase wp wp' o (left_closed e f) w (serving a b c d x) = clash wp.job_ch.closed f c
  Move-Phase wp wp' o (left_closed e f) w (draining a b c d x) = draining a b c d (inr e)
  Move-Phase wp wp' o (left_closed e f) w (stopped x) = stopped x
  Move-Phase wp wp' o (took job rest e) w (unstarted a b c d x) = absurd (ground (arith, e, x))
  Move-Phase wp wp' o (took job rest e) w (serving a b c d x) = serving a b c d (omega arith)
  Move-Phase wp wp' o (took job rest e) w (draining a b c d x) =
      draining a b c d (inl (omega arith))
  Move-Phase wp wp' o (took job rest e) w (stopped x) = stopped x
  Move-Phase wp wp' o (processed i job rest cache result e) w (unstarted a b c d x) =
      unstarted a b c d x
  Move-Phase wp wp' o (processed i job rest cache result e) w (serving a b c d x) =
      serving a b c d (omega arith)
  Move-Phase wp wp' o (processed i job rest cache result e) w (draining a b c d x) =
      draining a b c d (inl (omega arith))
  Move-Phase wp wp' o (processed i job rest cache result e) w (stopped x) = stopped x
  Move-Phase wp wp' o (told rest ch e) w (unstarted a b c d x) = unstarted a b c (e ∙ d) x
  Move-Phase wp wp' o (told rest ch e) w (serving a b c d x) = serving a b c (e ∙ d) (omega arith)
  Move-Phase wp wp' o (told rest ch e) w (draining a b c d x) =
      draining a b c (e ∙ d) (inl (omega arith))
  Move-Phase wp wp' o (told rest ch e) w (stopped x) = stopped x
  Move-Phase wp wp' o (left_untold rest e) w p = stopped e
  Move-Phase wp wp' o (collected k h ch m t n e) w (unstarted a b c d x) = unstarted a b c (e ∙ d) x
  Move-Phase wp wp' o (collected k h ch m t n e) w (serving a b c d x) = serving a b c (e ∙ d) x
  Move-Phase wp wp' o (collected k h ch m t n e) w (draining a b c d x) = draining a b c (e ∙ d) x
  Move-Phase wp wp' o (collected k h ch m t n e) w (stopped x) = stopped x
  Move-Phase wp wp' o (resized n e f) w (unstarted a b c d x) = unstarted a b refl refl refl
  Move-Phase wp wp' o (resized n e f) w (serving a b c d x) = clash wp.running a e
  Move-Phase wp wp' o (resized n e f) w (draining a b c d x) = clash wp.stopping b f
  Move-Phase wp wp' o (resized n e f) w (stopped x) = stopped x

  Move-workers :
      (wp wp' : WorkerPool S D) (o : Observation D)
      → Move wp o wp'
      → 0 < wp.workers
      → 0 < wp'.workers
  Move-workers wp wp' o stays w = w
  Move-workers wp wp' o (refuses job) w = w
  Move-workers wp wp' o (started e f) w = w
  Move-workers wp wp' o (stop_began e f g) w = w
  Move-workers wp wp' o (stop_ended e f) w = w
  Move-workers wp wp' o (admits job e f g h) w = w
  Move-workers wp wp' o (left_cancelled e) w = w
  Move-workers wp wp' o (left_closed e f) w = w
  Move-workers wp wp' o (took job rest e) w = w
  Move-workers wp wp' o (processed i job rest cache result e) w = w
  Move-workers wp wp' o (told rest ch e) w = w
  Move-workers wp wp' o (left_untold rest e) w = w
  Move-workers wp wp' o (collected k h ch m t n e) w = w
  Move-workers wp wp' o (resized n e f) w = omega arith

  Move-cancelled :
      (wp wp' : WorkerPool S D) (o : Observation D)
      → Move wp o wp'
      → wp.cancelled ≡ true
      → wp'.cancelled ≡ true
  Move-cancelled wp wp' o stays c = c
  Move-cancelled wp wp' o (refuses job) c = c
  Move-cancelled wp wp' o (started e f) c = c
  Move-cancelled wp wp' o (stop_began e f g) c = c
  Move-cancelled wp wp' o (stop_ended e f) c = refl
  Move-cancelled wp wp' o (admits job e f g h) c = c
  Move-cancelled wp wp' o (left_cancelled e) c = c
  Move-cancelled wp wp' o (left_closed e f) c = c
  Move-cancelled wp wp' o (took job rest e) c = c
  Move-cancelled wp wp' o (processed i job rest cache result e) c = c
  Move-cancelled wp wp' o (told rest ch e) c = c
  Move-cancelled wp wp' o (left_untold rest e) c = c
  Move-cancelled wp wp' o (collected k h ch m t n e) c = c
  Move-cancelled wp wp' o (resized n e f) c = c

  pub Trace-cancelled :
      (wp last : WorkerPool S D) (os : List (Observation D))
      → Trace wp os last
      → wp.cancelled ≡ true
      → last.cancelled ≡ true
  Trace-cancelled wp last os (ends _) c = c
  Trace-cancelled wp last os (moves o rest _ next _ m t) c =
      Trace-cancelled next last rest t (Move-cancelled wp next o m c)

  Trace-Phase :
      (wp last : WorkerPool S D) (os : List (Observation D))
      → Trace wp os last
      → 0 < wp.workers
      → Phase wp
      → Phase last
  Trace-Phase wp last os (ends _) w p = p
  Trace-Phase wp last os (moves o rest _ next _ m t) w p =
      Trace-Phase next last rest t (Move-workers wp next o m w) (Move-Phase wp next o m w p)

  -- A `Resize` before the first `Stop` finds no jobs in the channel.
  Move-dropped :
      (wp wp' : WorkerPool S D) (o : Observation D)
      → Move wp o wp'
      → Phase wp
      → (wp.cancelled ≡ true) ⊎ (dropped_jobs (o ∷ []) ≡ [])
  Move-dropped wp wp' o stays p = inr refl
  Move-dropped wp wp' o (refuses job) p = inr refl
  Move-dropped wp wp' o (started e f) p = inr refl
  Move-dropped wp wp' o (stop_began e f g) p = inr refl
  Move-dropped wp wp' o (stop_ended e f) p = inr refl
  Move-dropped wp wp' o (admits job e f g h) p = inr refl
  Move-dropped wp wp' o (left_cancelled e) p = inr refl
  Move-dropped wp wp' o (left_closed e f) p = inr refl
  Move-dropped wp wp' o (took job rest e) p = inr refl
  Move-dropped wp wp' o (processed i job rest cache result e) p = inr refl
  Move-dropped wp wp' o (told rest ch e) p = inr refl
  Move-dropped wp wp' o (left_untold rest e) p = inr refl
  Move-dropped wp wp' o (collected k h ch m t n e) p = inr refl
  Move-dropped wp wp' o (resized n e f) (unstarted a b c d x) =
      inr (append-nil wp.job_ch.buffer ∙ x)
  Move-dropped wp wp' o (resized n e f) (serving a b c d x) = clash wp.running a e
  Move-dropped wp wp' o (resized n e f) (draining a b c d x) = clash wp.stopping b f
  Move-dropped wp wp' o (resized n e f) (stopped x) = inl x

  pub Trace-dropped :
      (wp last : WorkerPool S D) (os : List (Observation D))
      → Trace wp os last
      → 0 < wp.workers
      → Phase wp
      → last.cancelled ≡ false
      → dropped_jobs os ≡ []
  Trace-dropped wp last os (ends _) w p c = refl
  Trace-dropped wp last os (moves o rest _ next _ m t) w p c = elim (Move-dropped wp next o m p) [
    | inl e ↦
        clash last.cancelled (Trace-cancelled next last rest t (Move-cancelled wp next o m e)) c
    | inr e ↦
        dropped-first o rest e (
          Trace-dropped next last rest t (Move-workers wp next o m w) (Move-Phase wp next o m w p)
            c)
  ]

  pub Fault-clash : (wp : WorkerPool S D) → Phase wp → wp.cancelled ≡ false → Fault wp → ⊥
  Fault-clash wp (unstarted a b c d x) n (jobs_closed s r e) = clash wp.running r a
  Fault-clash wp (serving a b c d x) n (jobs_closed s r e) = clash wp.job_ch.closed e c
  Fault-clash wp (draining a b c d x) n (jobs_closed s r e) = clash wp.stopping b s
  Fault-clash wp (stopped x) n f = clash wp.cancelled x n
  Fault-clash wp (unstarted a b c d x) n (results_closed e) = clash wp.result_ch.closed e d
  Fault-clash wp (serving a b c d x) n (results_closed e) = clash wp.result_ch.closed e d
  Fault-clash wp (draining a b c d x) n (results_closed e) = clash wp.result_ch.closed e d

  pub new-Phase : (n : ℤ) (cache : S) → Phase (new_worker_pool n cache)
  unfolding new_worker_pool make_channel
  new-Phase n cache = unstarted refl refl refl refl refl

  pub run-Phase :
      (set : CacheSet S D) (workers : ℤ) (cache : S) (es : List (Event D)) (wp : WorkerPool S D)
      (os : List (Observation D))
      → run set es (new_worker_pool workers cache) ≡ ran wp os
      → Phase wp
  unfolding new_worker_pool
  run-Phase set workers cache es wp os h =
      Trace-Phase _ wp os (run-Trace set es _ wp os h) (positive_or-positive workers)
        (new-Phase workers cache)
