-- ===== src/Cache/Warmer/Shares.antt =====
-- What becomes of the jobs of a batch that the goroutines of `processBatch` in warmer.go share.
use task_management_api.Shared.{
  ℕ, ◌≡◌, refl, sym, ap, ◌∙◌, Bool, true, false, some, List, [], ◌∷◌, ◌++◌, arith,
}
use task_management_api.Shared.Int.{ℤ}
use mathlib.Core.List.{Perm, perm_middle, append_assoc}
use mathlib.Core.List.Perm
use task_management_api.Cache.Jobs.{WarmupJob}
use task_management_api.Cache.WorkerPool.{take_out}
use task_management_api.Cache.WorkerPool.Workers.{CacheSet}
use task_management_api.Cache.WorkerPool.Conservation.{take_out-perm}
use task_management_api.Cache.WorkerPool.Channels.{make_channel, put}
use task_management_api.Cache.Warmer.Helpers.{Batch, Turn, process_job, begin_batch, run_turns}
use task_management_api.Cache.Warmer.Turns.{
  Move, sent_job, closed_channel, took, left, gave_up, went_on, stored, run-keeps,
}

-- The jobs of a batch that are neither stored nor given up.
abbrev pub held : {S D : Type 0} → Batch S D → List (WarmupJob D)
held b = b.busy ++ (b.received ++ (b.job_ch.buffer ++ b.unsent))

module _ {S D : Type 0} (set : CacheSet S D) where
  unfoldable pub store_all : S → List (WarmupJob D) → S
  unfolding process_job
  store_all cache [] = cache
  store_all cache (job ∷ jobs) = store_all (process_job set cache job) jobs

  pub store_all-append :
      (cache : S) (xs ys : List (WarmupJob D))
      → store_all cache (xs ++ ys) ≡ store_all (store_all cache xs) ys
  unfolding store_all
  store_all-append cache [] ys = refl
  store_all-append cache (x ∷ xs) ys = store_all-append (process_job set cache x) xs ys

  store_all-last :
      (cache : S) (jobs : List (WarmupJob D)) (job : WarmupJob D)
      → store_all cache (jobs ++ job ∷ []) ≡ process_job set (store_all cache jobs) job
  unfolding store_all
  store_all-last cache jobs job = store_all-append cache jobs (job ∷ [])

  module _ (cache : S) (jobs : List (WarmupJob D)) where
    -- Each job was stored, in that order, or given up, or is held.
    pub record Shares (b : Batch S D) : Type 0 where
      pub order : List (WarmupJob D)
      pub gone : List (WarmupJob D)
      pub stores : b.cache ≡ store_all cache order
      pub all_jobs : Perm jobs (order ++ (gone ++ held b))
      pub uncancelled : b.cancelled ≡ false → gone ≡ []

    kept :
        (b b' : Batch S D)
        → b'.cache ≡ b.cache
        → b'.cancelled ≡ b.cancelled
        → Perm (held b) (held b')
        → Shares b
        → Shares b'
    kept b b' e f p s = record {
      order = s.order;
      gone = s.gone;
      stores = e ∙ s.stores;
      all_jobs = Perm.trans s.all_jobs (Perm.append_left s.order (Perm.append_left s.gone p));
      uncancelled = λ u. s.uncancelled (sym f ∙ u);
    }

    one_less :
        (order gone before after : List (WarmupJob D)) (job : WarmupJob D)
        → Perm jobs (order ++ (gone ++ before))
        → Perm before (job ∷ after)
        → Perm jobs (order ++ (job ∷ (gone ++ after)))
    one_less order gone before after job p q =
        Perm.trans p
          (Perm.append_left order (Perm.trans (Perm.append_left gone q) (perm_middle gone after)))

    taken :
        (i : ℕ) (busy received rest others : List (WarmupJob D)) (job : WarmupJob D)
        → take_out i received ≡ some (job, rest)
        → Perm (busy ++ (received ++ others)) (job ∷ (busy ++ (rest ++ others)))
    taken i busy received rest others job e =
        Perm.trans
          (Perm.append_left busy (Perm.append_right others (take_out-perm i received job rest e)))
          (perm_middle busy (rest ++ others))

    Move-Shares : (b b' : Batch S D) → Move set b b' → Shares b → Shares b'
    unfolding put
    Move-Shares b b' (sent_job job rest e) s =
        kept b b' refl refl
          (Perm.append_left b.busy (
            Perm.append_left b.received
              (rw (append_assoc b.job_ch.buffer (job ∷ []) rest, e) Perm.rfl)))
          s
    Move-Shares b b' (closed_channel e f) s = kept b b' refl refl Perm.rfl s
    Move-Shares b b' (took job rest e f) s =
        kept b b' refl refl
          (rw e (Perm.append_left b.busy (perm_middle b.received (rest ++ b.unsent)))) s
    Move-Shares b b' (left e f g) s = kept b b' refl refl Perm.rfl s
    Move-Shares b b' (gave_up i job rest e f) s = record {
      order = s.order;
      gone = job ∷ s.gone;
      stores = s.stores;
      all_jobs =
          one_less s.order s.gone (held b) (held b') job s.all_jobs
            (taken i b.busy b.received rest (b.job_ch.buffer ++ b.unsent) job e);
      uncancelled = λ u. absurd (ground (arith, f, u));
    }
    Move-Shares b b' (went_on i job rest e f) s =
        kept b b' refl refl (taken i b.busy b.received rest (b.job_ch.buffer ++ b.unsent) job e) s
    Move-Shares b b' (stored i job rest e) s = record {
      order = s.order ++ job ∷ [];
      gone = s.gone;
      stores = ap (λ c. process_job set c job) s.stores ∙ sym (store_all-last cache s.order job);
      all_jobs = rw (append_assoc s.order (job ∷ []) (s.gone ++ held b')) (
          one_less s.order s.gone (held b) (held b') job s.all_jobs (
            Perm.append_right (b.received ++ (b.job_ch.buffer ++ b.unsent))
              (take_out-perm i b.busy job rest e)));
      uncancelled = s.uncancelled;
    }

    cancelled-Shares : (b : Batch S D) → Shares b → Shares (record b { cancelled = true })
    cancelled-Shares b s = record {
      order = s.order;
      gone = s.gone;
      stores = s.stores;
      all_jobs = s.all_jobs;
      uncancelled = λ u. absurd (ground (arith, u));
    }

    pub run-Shares :
        (ts : List Turn) (cancelled : Bool) (concurrency : ℤ)
        → Shares (run_turns set ts (begin_batch cache cancelled jobs concurrency))
    unfolding begin_batch make_channel store_all
    run-Shares ts cancelled concurrency =
        run-keeps set Shares Move-Shares cancelled-Shares ts
          (begin_batch cache cancelled jobs concurrency)
          (record {
            order = [];
            gone = [];
            stores = refl;
            all_jobs = Perm.rfl;
            uncancelled = λ u. refl;
          })
