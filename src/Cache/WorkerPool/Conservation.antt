-- ===== src/Cache/WorkerPool/Conservation.antt =====
-- What becomes of the jobs that the pool of worker_pool.go admits.
use task_management_api.Shared.{
  ℕ, zero, suc, ◌≤◌, ◌≡◌, subst, some, List, [], ◌∷◌, ◌++◌, length, length-append, inl, inr,
  Option-cases, arith,
}
use task_management_api.Shared.Int.{ℤ}
use mathlib.Core.List.{Perm, perm_middle, append_assoc, append-nil}
use mathlib.Core.List.Perm
use task_management_api.Cache.Jobs.{WarmupJob}
use task_management_api.Cache.WorkerPool.{
  WorkerPool, Observation, accepted, refused, stored, dropped, quiet, take_out, new_worker_pool,
}
use task_management_api.Cache.WorkerPool.Workers.{CacheSet}
use task_management_api.Cache.WorkerPool.Channels.{make_channel}
use task_management_api.Cache.WorkerPool.Events.{
  Event, ran, accepted_jobs, stored_jobs, dropped_jobs, run,
}
use task_management_api.Cache.WorkerPool.Moves.{
  Move, stays, refuses, started, stop_began, stop_ended, admits, left_cancelled, left_closed, took,
  processed, told, left_untold, collected, resized,
}
use task_management_api.Cache.WorkerPool.Stores.{all_set, run-all_set}
use task_management_api.Cache.WorkerPool.Traces.{Trace, ends, moves, run-Trace}

pub take_out-perm :
    {A : Type 0} (i : ℕ) (xs : List A) (x : A) (rest : List A)
    → take_out i xs ≡ some (x, rest)
    → Perm xs (x ∷ rest)
unfolding take_out
take_out-perm i [] x rest e = absurd (ground arith)
take_out-perm zero (y ∷ ys) x rest e =
    let p : x ≡ y = ground arith in let q : rest ≡ ys = ground arith in rw (p, q) Perm.rfl
take_out-perm (suc i) (y ∷ ys) x rest e = elim (Option-cases (take_out i ys)) [
  | inl f ↦ absurd (ground (arith, e, f))
  | inr ((z, zs), f) ↦
      let p : x ≡ z = ground (arith, e, f) in
      let q : rest ≡ y ∷ zs = ground (arith, e, f) in
      rw (p, q) (Perm.trans (Perm.cons y (take_out-perm i ys z zs f)) (Perm.swap z y zs))
]

abbrev Conserves : {D : Type 0} → Observation D → (before after : List (WarmupJob D)) → Type 0
Conserves (accepted job) before after = Perm after (job ∷ before)
Conserves (refused job) before after = Perm after before
Conserves (stored job) before after = Perm before (job ∷ after)
Conserves (dropped jobs) before after = Perm before (jobs ++ after)
Conserves quiet before after = Perm after before

append-swap : {A : Type 0} (xs ys zs : List A) → Perm (xs ++ (ys ++ zs)) (ys ++ (xs ++ zs))
append-swap [] ys zs = Perm.rfl
append-swap (x ∷ xs) ys zs =
    Perm.trans (Perm.cons x (append-swap xs ys zs)) (Perm.symm (perm_middle ys (xs ++ zs)))

module _ {S D : Type 0} where
  -- The jobs that a pool has accepted and not yet stored.
  abbrev pub held : WorkerPool S D → List (WarmupJob D)
  held wp = wp.busy ++ wp.job_ch.buffer

  Move-Conserves :
      (wp wp' : WorkerPool S D) (o : Observation D)
      → Move wp o wp'
      → Conserves o (held wp) (held wp')
  unfolding make_channel
  Move-Conserves wp wp' o stays = Perm.rfl
  Move-Conserves wp wp' o (refuses job) = Perm.rfl
  Move-Conserves wp wp' o (started e f) = Perm.rfl
  Move-Conserves wp wp' o (stop_began e f g) = Perm.rfl
  Move-Conserves wp wp' o (stop_ended e f) = Perm.rfl
  Move-Conserves wp wp' o (admits job e f g h) =
      rw (← append_assoc wp.busy wp.job_ch.buffer (job ∷ []))
        (Perm.trans (perm_middle (held wp) []) (Perm.cons job (rw (append-nil (held wp)) Perm.rfl)))
  Move-Conserves wp wp' o (left_cancelled e) = Perm.rfl
  Move-Conserves wp wp' o (left_closed e f) = Perm.rfl
  Move-Conserves wp wp' o (took job rest e) = rw e (Perm.symm (perm_middle wp.busy rest))
  Move-Conserves wp wp' o (processed i job rest cache result e) =
      Perm.append_right wp.job_ch.buffer (take_out-perm i wp.busy job rest e)
  Move-Conserves wp wp' o (told rest ch e) = Perm.rfl
  Move-Conserves wp wp' o (left_untold rest e) = Perm.rfl
  Move-Conserves wp wp' o (collected w h ch p t n e) = Perm.rfl
  Move-Conserves wp wp' o (resized n e f) =
      subst (λ (b : List (WarmupJob D)). Perm (wp.busy ++ b) (wp.job_ch.buffer ++ (wp.busy ++ [])))
        (append-nil wp.job_ch.buffer) (append-swap wp.busy wp.job_ch.buffer [])

  -- No more jobs wait than the channel holds.
  abbrev Within : WorkerPool S D → Type 0
  Within wp = length wp.job_ch.buffer ≤ wp.job_ch.capacity

  Move-Within :
      (wp wp' : WorkerPool S D) (o : Observation D) → Move wp o wp' → Within wp → Within wp'
  unfolding make_channel
  Move-Within wp wp' o stays w = w
  Move-Within wp wp' o (refuses job) w = w
  Move-Within wp wp' o (started e f) w = w
  Move-Within wp wp' o (stop_began e f g) w = w
  Move-Within wp wp' o (stop_ended e f) w = w
  Move-Within wp wp' o (admits job e f g h) w =
      ground (arith, length-append wp.job_ch.buffer (job ∷ []), h)
  Move-Within wp wp' o (left_cancelled e) w = w
  Move-Within wp wp' o (left_closed e f) w = w
  Move-Within wp wp' o (took job rest e) w =
      let v : suc (length rest) ≤ wp.job_ch.capacity = rw e at w in omega (arith, v)
  Move-Within wp wp' o (processed i job rest cache result e) w = w
  Move-Within wp wp' o (told rest ch e) w = w
  Move-Within wp wp' o (left_untold rest e) w = w
  Move-Within wp wp' o (collected a h ch p t n e) w = w
  Move-Within wp wp' o (resized n e f) w = omega arith

  -- What is so after a run.
  abbrev pub Accounts : List (WarmupJob D) → WorkerPool S D → List (Observation D) → Type 0
  Accounts before wp os =
      Perm (accepted_jobs os ++ before) (stored_jobs os ++ (dropped_jobs os ++ held wp))

  observed-Accounts :
      (o : Observation D) (os : List (Observation D)) (before after : List (WarmupJob D))
      (wp : WorkerPool S D)
      → Conserves o before after
      → Accounts after wp os
      → Accounts before wp (o ∷ os)
  observed-Accounts (accepted job) os before after wp c a =
      Perm.trans
        (Perm.symm (
          Perm.trans (Perm.append_left (accepted_jobs os) c)
            (perm_middle (accepted_jobs os) before)))
        a
  observed-Accounts (refused job) os before after wp c a =
      Perm.trans (Perm.symm (Perm.append_left (accepted_jobs os) c)) a
  observed-Accounts (stored job) os before after wp c a =
      Perm.trans (Perm.append_left (accepted_jobs os) c)
        (Perm.trans (perm_middle (accepted_jobs os) after) (Perm.cons job a))
  observed-Accounts (dropped jobs) os before after wp c a =
      Perm.trans (Perm.append_left (accepted_jobs os) c) (
        Perm.trans (append-swap (accepted_jobs os) jobs after) (
          Perm.trans (Perm.append_left jobs a) (
            Perm.trans (append-swap jobs (stored_jobs os) _) (
              Perm.append_left (stored_jobs os)
                (rw (append_assoc jobs (dropped_jobs os) (held wp)) Perm.rfl)))))
  observed-Accounts quiet os before after wp c a =
      Perm.trans (Perm.symm (Perm.append_left (accepted_jobs os) c)) a

  Trace-Accounts :
      (wp last : WorkerPool S D) (os : List (Observation D))
      → Trace wp os last
      → Accounts (held wp) last os
  Trace-Accounts wp last os (ends _) = Perm.rfl
  Trace-Accounts wp last os (moves o rest _ next _ m t) =
      observed-Accounts o rest (held wp) (held next) last (Move-Conserves wp next o m)
        (Trace-Accounts next last rest t)

  Trace-Within :
      (wp last : WorkerPool S D) (os : List (Observation D))
      → Trace wp os last
      → Within wp
      → Within last
  Trace-Within wp last os (ends _) w = w
  Trace-Within wp last os (moves o rest _ next _ m t) w =
      Trace-Within next last rest t (Move-Within wp next o m w)

  -- However the goroutines of a new pool and its callers interleave: the jobs that `SubmitJob` has
  -- accepted are, each as often, those for which a worker has called `Set`, those that `Resize` dropped
  -- with the old channel, those that a busy worker has and those that wait in the channel, which are no
  -- more than its capacity. And the cache is what `Set` makes of it for the key, the value and the time
  -- to live of the first of these, one after the other, whether `Set` fails or not.
  pub run-Conserves :
      (set : CacheSet S D) (workers : ℤ) (cache : S) (es : List (Event D)) (wp : WorkerPool S D)
      (os : List (Observation D))
      → run set es (new_worker_pool workers cache) ≡ ran wp os
      → Perm
          (accepted_jobs os)
          (stored_jobs os ++ (dropped_jobs os ++ (wp.busy ++ wp.job_ch.buffer)))
        × (length wp.job_ch.buffer ≤ wp.job_ch.capacity)
        × (wp.cache ≡ all_set set cache (stored_jobs os))
  unfolding new_worker_pool make_channel
  run-Conserves set workers cache es wp os h =
      let t = run-Trace set es _ wp os h in
      (
        rw (append-nil (accepted_jobs os)) at (Trace-Accounts _ wp os t),
        Trace-Within _ wp os t (omega arith),
        run-all_set set es _ wp os h,
      )
