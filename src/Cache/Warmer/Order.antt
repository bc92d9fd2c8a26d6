-- ===== src/Cache/Warmer/Order.antt =====
-- The order of things in `processBatch` of warmer.go: the channel has room for all jobs, it is closed
-- after the last one, and while nobody cancels the goroutines leave it empty.
use task_management_api.Shared.{
  ℕ, ◌+◌, ◌≡◌, ◌≢◌, ◌≤◌, refl, Bool, true, false, List, [], ◌∷◌, length, length-append, arith,
}
use task_management_api.Shared.Int.{ℤ}
use task_management_api.Cache.Jobs.{WarmupJob}
use task_management_api.Cache.WorkerPool.Workers.{CacheSet}
use task_management_api.Cache.WorkerPool.Channels.{make_channel, put}
use task_management_api.Cache.Warmer.Helpers.{Batch, Turn, helpers, begin_batch, run_turns}
use task_management_api.Cache.Warmer.Turns.{
  Move, sent_job, closed_channel, took, left, gave_up, went_on, stored, run-keeps,
}

-- The goroutines that the wait group counts.
abbrev pub alive : {S D : Type 0} → Batch S D → ℕ
alive b = b.idle + length b.received + length b.busy

-- `k` is the number of goroutines that were started.
pub record InOrder {S D : Type 0} (k : ℕ) (b : Batch S D) : Type 0 where
  pub room : length b.job_ch.buffer + length b.unsent ≤ b.job_ch.capacity
  pub all_sent : b.job_ch.closed ≡ true → b.unsent ≡ []
  pub spent :
      alive b ≡ 0 → b.cancelled ≡ false → k ≢ 0 → (b.job_ch.buffer ≡ []) × (b.job_ch.closed ≡ true)

module _ {S D : Type 0} (set : CacheSet S D) (k : ℕ) where
  Move-InOrder : (b b' : Batch S D) → Move set b b' → InOrder k b → InOrder k b'
  unfolding put
  Move-InOrder b b' (sent_job job rest e) o = record {
    room = ground (arith, o.room, e, length-append b.job_ch.buffer (job ∷ []));
    all_sent = λ c. absurd (ground (arith, e, o.all_sent c));
    spent = λ a u h. absurd (ground (arith, e, o.all_sent (o.spent a u h).1));
  }
  Move-InOrder b b' (closed_channel e f) o = record {
    room = o.room;
    all_sent = λ c. e;
    spent = λ a u h. ((o.spent a u h).0, refl);
  }
  Move-InOrder b b' (took job rest e f) o = record {
    room = ground (arith, o.room, e);
    all_sent = o.all_sent;
    spent = λ a u h. absurd (omega (arith, a));
  }
  Move-InOrder b b' (left e f g) o = record {
    room = o.room;
    all_sent = o.all_sent;
    spent = λ a u h. (e, f);
  }
  Move-InOrder b b' (gave_up i job rest e f) o = record {
    room = o.room;
    all_sent = o.all_sent;
    spent = λ a u h. absurd (ground (arith, f, u));
  }
  Move-InOrder b b' (went_on i job rest e f) o = record {
    room = o.room;
    all_sent = o.all_sent;
    spent = λ a u h. absurd (omega (arith, a));
  }
  Move-InOrder b b' (stored i job rest e) o = record {
    room = o.room;
    all_sent = o.all_sent;
    spent = λ a u h. absurd (omega (arith, a));
  }

  cancelled-InOrder : (b : Batch S D) → InOrder k b → InOrder k (record b { cancelled = true })
  cancelled-InOrder b o = record {
    room = o.room;
    all_sent = o.all_sent;
    spent = λ a u h. absurd (ground (arith, u));
  }

  pub run_turns-InOrder :
      (ts : List Turn) (b : Batch S D) → InOrder k b → InOrder k (run_turns set ts b)
  run_turns-InOrder = run-keeps set (InOrder k) Move-InOrder cancelled-InOrder

module _ {S D : Type 0} where
  pub begin_batch-InOrder :
      (cache : S) (cancelled : Bool) (jobs : List (WarmupJob D)) (concurrency : ℤ)
      → InOrder (helpers concurrency (length jobs)) (begin_batch cache cancelled jobs concurrency)
  unfolding begin_batch make_channel
  begin_batch-InOrder cache cancelled jobs concurrency = record {
    room = omega arith;
    all_sent = λ c. absurd (ground (arith, c));
    spent = λ a u h. absurd (h (omega (arith, a)));
  }
