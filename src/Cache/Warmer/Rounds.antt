-- ===== src/Cache/Warmer/Rounds.antt =====
-- `warmCache` of backend/internal/cache/warmer.go without a worker pool: the loop over the batches. The
-- turns of the goroutines are given for each batch, so that a list of them is how far the loop has run.
use task_management_api.Shared.{
  ℕ, ◌-◌, ◌==◌, true, false, not, Option, none, some, List, [], ◌∷◌, length, take, drop, leb,
  if◌then◌else◌,
}
use task_management_api.Shared.Int.{ℤ, pos, negsuc, ltb_ℤ, add_int64}
use task_management_api.Cache.Jobs.{WarmupJob}
use task_management_api.Cache.WorkerPool.Workers.{CacheSet}
use task_management_api.Cache.Warmer.Helpers.{Batch, Turn, begin_batch, is_over, run_turns}

-- With the cache. `waits` is at a `wg.Wait()`, and `goes_on` at a batch that has not begun.
pub data Warming (S : Type 0) : Type 0 where
  completed was_cancelled waits goes_on : S → Warming S
  panicked : Warming S

-- The slice from `i` to `end`, of a list that is long enough.
unfoldable pub slice : {A : Type 0} → List A → ℤ → ℤ → Option (List A)
slice xs (negsuc i) end = none
slice xs (pos i) (negsuc e) = none
slice xs (pos i) (pos e) = if leb i e then some (take (e - i) (drop i xs)) else none

unfoldable pub batch_end : (i batch_size : ℤ) → (jobs : ℕ) → ℤ
unfolding add_int64
batch_end i batch_size jobs =
    if ltb_ℤ (pos jobs) (add_int64 i batch_size) then pos jobs else add_int64 i batch_size

module _ {S D : Type 0} where
  -- After `processBatch` the loop goes on from the cache, unless the context is done.
  unfoldable pub after_batch : Batch S D → (S → Warming S) → Warming S
  unfolding is_over
  after_batch b next =
      if not (is_over b)
      then waits b.cache
      else elim b.cancelled [ true ↦ was_cancelled b.cache | false ↦ next b.cache ]

module _ {S D : Type 0} (set : CacheSet S D) where
  unfoldable pub warm_batches :
      List (List Turn) → List (WarmupJob D) → (batch_size concurrency : ℤ) → (i : ℤ) → S → Warming S
  unfolding slice batch_end after_batch begin_batch run_turns add_int64
  warm_batches [] jobs batch_size concurrency i cache =
      if ltb_ℤ i (pos (length jobs)) then goes_on cache else completed cache
  warm_batches (turns ∷ schedule) jobs batch_size concurrency i cache =
      if not (ltb_ℤ i (pos (length jobs)))
      then completed cache
      else elim (slice jobs i (batch_end i batch_size (length jobs))) [
        | none ↦ panicked
        | some batch ↦
            after_batch (run_turns set turns (begin_batch cache false batch concurrency))
              (warm_batches schedule jobs batch_size concurrency (add_int64 i batch_size))
      ]

  unfoldable pub warm_directly :
      List (List Turn) → List (WarmupJob D) → (batch_size concurrency : ℤ) → S → Warming S
  unfolding warm_batches
  warm_directly schedule jobs batch_size concurrency cache =
      if length jobs == 0
      then completed cache
      else warm_batches schedule jobs batch_size concurrency (pos 0) cache
