-- ===== src/Cache/Scheduler/Batches.antt =====
-- What `ProcessScheduledJobs` of job_scheduler.go takes from the queue and what the pool gets of it.
use task_management_api.Shared.{
  ℕ, zero, suc, ◌≤◌, ◌≡◌, refl, ap, ◌⊎◌, inl, inr, some, List, [], ◌∷◌, ◌++◌, length, take, drop,
  arith,
}
use task_management_api.Shared.Int.{ℤ, Time, inc}
use mathlib.Core.List.{Perm, append-nil, append_assoc}
use mathlib.Core.List.Perm
use task_management_api.Cache.Jobs.{WarmupJob}
use task_management_api.Cache.PriorityQueue.{HeapPackage, PriorityQueue, jobs, len, is_empty}
use task_management_api.Cache.PriorityQueue.Invariant.{HeapLaws, IsValid}
use task_management_api.Cache.PriorityQueue.Order.{Explains, List-cases}
use native.Mathlib.Nat.{zero-add}
use task_management_api.Cache.WorkerPool.{WorkerPool, get_stats as pool_stats}
use task_management_api.Cache.Scheduler.{
  JobScheduler, Coin, extract_jobs, process_scheduled_jobs, submitted, submit_batch, batch_size,
  extract_jobs_batch,
}
use task_management_api.Cache.Scheduler.Submission.{IsOpen, room, with_buffer, submit_jobs-room}
use task_management_api.Cache.Scheduler.Extraction.{
  extract-Extracted, Explains-Perm, not_empty, pops_of, replies_of,
}

pub take-drop : {A : Type 0} (k : ℕ) (xs : List A) → take k xs ++ drop k xs ≡ xs
take-drop zero xs = refl
take-drop (suc k) [] = refl
take-drop (suc k) (x ∷ xs) = ap (◌∷◌ x) (take-drop k xs)

shared-Perm :
    {A : Type 0} (k : ℕ) (bag taken last : List A)
    → Perm bag (taken ++ last)
    → Perm bag (take k taken ++ (drop k taken ++ last))
shared-Perm k bag taken last p =
    rw (← append_assoc (take k taken) (drop k taken) last, take-drop k taken) p

extracted :
    {S D : Type 0} (heap : HeapPackage) (wp : WorkerPool S D) (pq last : PriorityQueue D)
    (taken : List (WarmupJob D))
    → extract_jobs heap wp.job_ch.capacity pq ≡ some (last, taken)
    → extract_jobs_batch heap pq (some wp) ≡ some (last, taken)
unfolding extract_jobs_batch batch_size pool_stats
extracted heap wp pq last taken e = e

take-nil : {A : Type 0} (k : ℕ) → ◌≡◌ {A = List A} (take k []) []
take-nil zero = refl
take-nil (suc k) = refl

-- A batch of jobs is counted and its time kept, an empty one not, and nothing else but the queue changes.
abbrev pub Recorded :
    {W D : Type 0}
    → (now : Time) → (before after : JobScheduler W D) → (taken : List (WarmupJob D)) → Type 0
Recorded now before after [] = after ≡ record before { queue = after.queue }
Recorded now before after (job ∷ jobs) =
    after ≡ record before { queue = after.queue; run_count = inc before.run_count; last_run = now }

module _ {W S D : Type 0} (heap : HeapPackage) (Ordered : List ℤ → Type 0)
    (laws : HeapLaws heap Ordered) where
  -- What `ProcessScheduledJobs` does: `taken` is what it takes from the queue.
  pub record Processed (coin : Coin) (js : JobScheduler W D) (wp : WorkerPool S D) (now : Time)
      : Type 0 where
    pub after : JobScheduler W D
    pub taken : List (WarmupJob D)
    pub found :
        process_scheduled_jobs heap coin js (some wp) now
        ≡ some (after, some (with_buffer wp (take (room wp) taken)), length (take (room wp) taken))
    pub recorded : Recorded now js after taken
    pub valid : IsValid heap Ordered after.queue
    pub greatest_first :
        Explains (pops_of taken) (jobs js.queue.items) (replies_of taken) (jobs after.queue.items)
    pub at_most : length taken ≤ wp.job_ch.capacity
    pub stops : (length taken ≡ wp.job_ch.capacity) ⊎ (after.queue.items ≡ [])
    pub shared :
        Perm
          (jobs js.queue.items)
          (take (room wp) taken ++ (drop (room wp) taken ++ jobs after.queue.items))

  submitted-room :
      (coin : Coin) (js : JobScheduler W D) (wp : WorkerPool S D) (now : Time)
      (pq : PriorityQueue D) (taken : List (WarmupJob D))
      → IsOpen wp
      → (after : JobScheduler W D) × (after.queue ≡ pq)
        × Recorded now js after taken
        × (submitted heap coin js (some wp) now (some (pq, taken))
            ≡ some (
              after,
              some (with_buffer wp (take (room wp) taken)),
              length (take (room wp) taken),
            ))
  unfolding submitted submit_batch
  submitted-room coin js wp now pq [] o = (
    record js { queue = pq },
    refl,
    refl,
    rw (take-nil {A = WarmupJob D} (room wp), append-nil wp.job_ch.buffer) refl,
  )
  submitted-room coin js wp now pq (job ∷ rest) o = (
    record js { queue = pq; run_count = inc js.run_count; last_run = now },
    refl,
    refl,
    rw (submitted, submit_batch, submit_jobs-room (room wp) coin 0 (job ∷ rest) wp 0 o refl)
        (rw (zero-add (length (take (room wp) (job ∷ rest)))) refl),
  )

  empty-Processed :
      (coin : Coin) (js : JobScheduler W D) (wp : WorkerPool S D) (now : Time)
      → IsValid heap Ordered js.queue
      → js.queue.items ≡ []
      → Processed coin js wp now
  unfolding process_scheduled_jobs is_empty len Explains
  empty-Processed coin js wp now v e = record {
    after = js;
    taken = [];
    found =
        rw (take-nil {A = WarmupJob D} (room wp), append-nil wp.job_ch.buffer) (ground (arith, e));
    recorded = refl;
    valid = v;
    greatest_first = Perm.rfl;
    at_most = omega arith;
    stops = inr e;
    shared = shared-Perm (room wp) (jobs js.queue.items) [] (jobs js.queue.items) Perm.rfl;
  }

  -- `ProcessScheduledJobs` of a scheduler before a pool that takes jobs: it takes jobs from the queue,
  -- the greatest first, until it has as many as the channel of the pool holds in all or the queue is
  -- empty. Of these the pool gets the first, as many as its channel has room for, behind the jobs that
  -- wait there, and their number is the result. The others are in neither of the two any more. Such a run
  -- is counted and its time kept, unless it took no job.
  pub process-Processed :
      (coin : Coin) (js : JobScheduler W D) (wp : WorkerPool S D) (now : Time)
      → IsValid heap Ordered js.queue
      → IsOpen wp
      → Processed coin js wp now
  unfolding process_scheduled_jobs
  process-Processed coin js wp now v o = elim (List-cases js.queue.items) [
    | inl e ↦ empty-Processed coin js wp now v e
    | inr (y, ys, e) ↦
        let x = extract-Extracted heap Ordered laws wp.job_ch.capacity js.queue v in
        let (after, same, kept, s) = submitted-room coin js wp now x.queue x.taken o in
        record {
          after = after;
          taken = x.taken;
          found =
              rw
                (
                  process_scheduled_jobs,
                  not_empty heap Ordered laws js.queue y ys e,
                  extracted heap wp js.queue x.queue x.taken x.found,
                )
                s;
          recorded = kept;
          valid = rw same x.valid;
          greatest_first = rw same x.greatest_first;
          at_most = x.at_most;
          stops = rw same x.stops;
          shared = rw same (
              shared-Perm (room wp) (jobs js.queue.items) x.taken (jobs x.queue.items) (
                Explains-Perm x.taken (jobs js.queue.items) (jobs x.queue.items) x.greatest_first));
        }
  ]
