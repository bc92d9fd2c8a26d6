-- ===== src/Cache/Warmer/Turns.antt =====
-- The turns of the goroutines of `processBatch` in warmer.go as a relation.
use task_management_api.Shared.{
  ℕ, suc, ◌-◌, ◌==◌, ◌≡◌, ◌≢◌, refl, ltb, true, false, both_branches, subst, sym, Option, none,
  some, Option-cases, inl, inr, List, [], ◌∷◌, length, arith,
}
use task_management_api.Cache.Jobs.{WarmupJob}
use task_management_api.Cache.WorkerPool.{take_out}
use task_management_api.Cache.WorkerPool.Workers.{CacheSet}
use task_management_api.Cache.WorkerPool.Channels.{put, close}
use task_management_api.Cache.Warmer.Helpers.{
  Batch, Turn, sends, receives, cancels, tests, stores, process_job, turn, sent, range, tested,
  processed, closed_batch, run_turns,
}

module _ {S D : Type 0} (set : CacheSet S D) where
  -- A turn that is no cancellation.
  pub data Move : Batch S D → Batch S D → Type 0 where
    sent_job :
        {b : Batch S D} (job : WarmupJob D) (rest : List (WarmupJob D))
        → b.unsent ≡ job ∷ rest
        → Move b (record b { unsent = rest; job_ch = put b.job_ch job })
    closed_channel :
        {b : Batch S D}
        → b.unsent ≡ []
        → b.job_ch.closed ≡ false
        → Move b (record b { job_ch = record b.job_ch { closed = true } })
    took :
        {b : Batch S D} (job : WarmupJob D) (rest : List (WarmupJob D))
        → b.job_ch.buffer ≡ job ∷ rest
        → b.idle ≢ 0
        → Move b (record b {
          idle = b.idle - 1;
          received = job ∷ b.received;
          job_ch = record b.job_ch { buffer = rest };
        })
    left :
        {b : Batch S D}
        → b.job_ch.buffer ≡ []
        → b.job_ch.closed ≡ true
        → b.idle ≢ 0
        → Move b (record b { idle = b.idle - 1 })
    gave_up :
        {b : Batch S D} (i : ℕ) (job : WarmupJob D) (rest : List (WarmupJob D))
        → take_out i b.received ≡ some (job, rest)
        → b.cancelled ≡ true
        → Move b (record b { received = rest })
    went_on :
        {b : Batch S D} (i : ℕ) (job : WarmupJob D) (rest : List (WarmupJob D))
        → take_out i b.received ≡ some (job, rest)
        → b.cancelled ≡ false
        → Move b (record b { received = rest; busy = job ∷ b.busy })
    stored :
        {b : Batch S D} (i : ℕ) (job : WarmupJob D) (rest : List (WarmupJob D))
        → take_out i b.busy ≡ some (job, rest)
        → Move b (record b { busy = rest; idle = suc b.idle; cache = process_job set b.cache job })

  -- Where a turn leads.
  abbrev pub Moves : Turn → Batch S D → Option (Batch S D) → Type 0
  Moves t b none = Unit {0}
  Moves cancels b (some b') = b' ≡ record b { cancelled = true }
  Moves sends b (some b') = Move b b'
  Moves receives b (some b') = Move b b'
  Moves (tests i) b (some b') = Move b b'
  Moves (stores i) b (some b') = Move b b'

  closed-Move : (b : Batch S D) → b.unsent ≡ [] → Moves sends b (closed_batch (close b.job_ch) b)
  unfolding close
  closed-Move b e =
      both_branches (λ o. Moves sends b (closed_batch o b)) b.job_ch.closed (λ f. tt)
        (λ f. closed_channel e f)

  sent-Move : (b : Batch S D) (us : List (WarmupJob D)) → b.unsent ≡ us → Moves sends b (sent us b)
  unfolding sent
  sent-Move b [] e = closed-Move b e
  sent-Move b (job ∷ rest) e =
      both_branches (Moves sends b) (ltb (length b.job_ch.buffer) b.job_ch.capacity)
        (λ f. sent_job job rest e) (λ f. tt)

  range-Move :
      (b : Batch S D) (buffer : List (WarmupJob D))
      → b.job_ch.buffer ≡ buffer
      → b.idle ≢ 0
      → Moves receives b (range buffer b)
  unfolding range
  range-Move b [] e h = both_branches (Moves receives b) b.job_ch.closed (λ f. left e f h) (λ f. tt)
  range-Move b (job ∷ rest) e h = took job rest e h

  tested-Move :
      (b : Batch S D) (i : ℕ) (found : Option (WarmupJob D × List (WarmupJob D)))
      → take_out i b.received ≡ found
      → Moves (tests i) b (tested found b)
  unfolding tested
  tested-Move b i none e = tt
  tested-Move b i (some (job, rest)) e =
      both_branches (Moves (tests i) b) b.cancelled (λ f. gave_up i job rest e f)
        (λ f. went_on i job rest e f)

  processed-Move :
      (b : Batch S D) (i : ℕ) (found : Option (WarmupJob D × List (WarmupJob D)))
      → take_out i b.busy ≡ found
      → Moves (stores i) b (processed set found b)
  unfolding processed
  processed-Move b i none e = tt
  processed-Move b i (some (job, rest)) e = stored i job rest e

  receives-Move : (b : Batch S D) → Moves receives b (turn set receives b)
  unfolding turn
  receives-Move b =
      both_branches (Moves receives b) (b.idle == 0) (λ e. tt)
        (λ e. range-Move b b.job_ch.buffer refl (λ z. ground (arith, e, z)))

  pub turn-Moves : (t : Turn) (b : Batch S D) → Moves t b (turn set t b)
  unfolding turn
  turn-Moves sends b = sent-Move b b.unsent refl
  turn-Moves receives b = receives-Move b
  turn-Moves cancels b = refl
  turn-Moves (tests i) b = tested-Move b i (take_out i b.received) refl
  turn-Moves (stores i) b = processed-Move b i (take_out i b.busy) refl

  -- What every move keeps, and a cancellation, a run keeps.
  module _ (P : Batch S D → Type 0) (keep : (b b' : Batch S D) → Move b b' → P b → P b')
      (keep_cancelled : (b : Batch S D) → P b → P (record b { cancelled = true })) where
    next-keeps : (t : Turn) (b b' : Batch S D) → Moves t b (some b') → P b → P b'
    next-keeps sends b b' m p = keep b b' m p
    next-keeps receives b b' m p = keep b b' m p
    next-keeps cancels b b' m p = subst P (sym m) (keep_cancelled b p)
    next-keeps (tests i) b b' m p = keep b b' m p
    next-keeps (stores i) b b' m p = keep b b' m p

    pub run-keeps : (ts : List Turn) (b : Batch S D) → P b → P (run_turns set ts b)
    unfolding run_turns
    run-keeps [] b p = p
    run-keeps (t ∷ ts) b p = elim (Option-cases (turn set t b)) [
      | inl e ↦ rw (run_turns, e) (run-keeps ts b p)
      | inr (b', e) ↦
          let m : Moves t b (some b') = subst (Moves t b) e (turn-Moves t b) in
          rw (run_turns, e) (run-keeps ts b' (next-keeps t b b' m p))
    ]
