-- ===== src/Cache/Scheduler/Extraction.antt =====
-- What the loop of `extractJobsBatch` in job_scheduler.go takes from a queue.
use task_management_api.Shared.{
  ℕ, zero, suc, ◌≤◌, ◌≡◌, refl, ap, ◌⊎◌, inl, inr, false, Option, some, List, [], ◌∷◌, ◌++◌, length,
  arith,
}
use task_management_api.Shared.Int.{ℤ}
use mathlib.Core.List.{Perm}
use mathlib.Core.List.Perm
use task_management_api.Cache.Jobs.{WarmupJob}
use task_management_api.Cache.PriorityQueue.{
  HeapPackage, PriorityQueue, JobQueue, jobs, len, is_empty,
}
use task_management_api.Cache.PriorityQueue.Invariant.{HeapLaws, IsValid}
use task_management_api.Cache.PriorityQueue.Order.{
  Call, pops, Explains, Popped-at, Below-Greatest, List-cases,
}
use task_management_api.Cache.Scheduler.{extract_jobs}

-- `Pop` once for each job.
abbrev pub pops_of : {D : Type 0} → List (WarmupJob D) → List (Call D)
pops_of [] = []
pops_of (job ∷ js) = pops ∷ pops_of js

abbrev pub replies_of : {D : Type 0} → List (WarmupJob D) → List (Option (WarmupJob D))
replies_of [] = []
replies_of (job ∷ js) = some job ∷ replies_of js

pub Explains-Perm :
    {D : Type 0} (js bag last : List (WarmupJob D))
    → Explains (pops_of js) bag (replies_of js) last
    → Perm bag (js ++ last)
unfolding Explains
Explains-Perm [] bag last e = e
Explains-Perm (job ∷ js) bag last e =
    Perm.trans e.1 (Perm.cons job (Explains-Perm js (e.0) last e.3))

module _ {D : Type 0} (heap : HeapPackage) (Ordered : List ℤ → Type 0)
    (laws : HeapLaws heap Ordered) where
  -- What the loop of `extractJobsBatch` takes.
  pub record Extracted (n : ℕ) (pq : PriorityQueue D) : Type 0 where
    pub queue : PriorityQueue D
    pub taken : List (WarmupJob D)
    pub found : extract_jobs heap n pq ≡ some (queue, taken)
    pub valid : IsValid heap Ordered queue
    pub greatest_first :
        Explains (pops_of taken) (jobs pq.items) (replies_of taken) (jobs queue.items)
    pub at_most : length taken ≤ n
    pub stops : (length taken ≡ n) ⊎ (queue.items ≡ [])

  pub not_empty :
      (pq : PriorityQueue D) (x : JobQueue D) (xs : List (JobQueue D))
      → pq.items ≡ x ∷ xs
      → is_empty pq ≡ false
  unfolding is_empty len
  not_empty pq x xs e = rw e (ground arith)

  suc_stops : {n k : ℕ} {xs : List (JobQueue D)} → (k ≡ n) ⊎ (xs ≡ []) → (suc k ≡ suc n) ⊎ (xs ≡ [])
  suc_stops (inl e) = inl (ap suc e)
  suc_stops (inr e) = inr e

  pub extract-Extracted : (n : ℕ) (pq : PriorityQueue D) → IsValid heap Ordered pq → Extracted n pq
  unfolding extract_jobs is_empty len Explains
  extract-Extracted zero pq v = record {
    queue = pq;
    taken = [];
    found = refl;
    valid = v;
    greatest_first = Perm.rfl;
    at_most = omega arith;
    stops = inl refl;
  }
  extract-Extracted (suc n) pq v = elim (List-cases pq.items) [
    | inl e ↦ record {
      queue = pq;
      taken = [];
      found = ground (arith, e);
      valid = v;
      greatest_first = Perm.rfl;
      at_most = omega arith;
      stops = inr e;
    }
    | inr (x, xs, e) ↦
        let t = Popped-at heap Ordered laws pq x xs e v in
        let r = extract-Extracted n t.queue t.valid in
        record {
          queue = r.queue;
          taken = t.job ∷ r.taken;
          found = rw (extract_jobs, not_empty pq x xs e, t.found, r.found) refl;
          valid = r.valid;
          greatest_first = (
            jobs t.queue.items,
            t.same_jobs,
            Below-Greatest t.job t.queue.items t.valid.agree t.greatest,
            r.greatest_first,
          );
          at_most = omega (arith, r.at_most);
          stops = suc_stops r.stops;
        }
  ]
