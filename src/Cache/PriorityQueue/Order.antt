-- ===== src/Cache/PriorityQueue/Order.antt =====
-- Runs of calls of the queue of priority_queue.go, against a bag of jobs that gives up its greatest.
use task_management_api.Shared.{
  ◌≡◌, refl, Option, none, some, List, [], ◌∷◌, ap, sym, subst, ◌⊎◌, inl, inr,
}
use task_management_api.Shared.Int.{ℤ, ◌≤ℤ◌}
use mathlib.Core.List.{Perm}
use mathlib.Core.List.Perm
use task_management_api.Cache.Jobs.{WarmupJob}
use task_management_api.Cache.PriorityQueue.{
  JobQueue, PriorityQueue, HeapPackage, priorities, jobs, push, pop, clear, peek,
}
use task_management_api.Cache.PriorityQueue.Items.{Agree}
use task_management_api.Cache.PriorityQueue.Invariant.{Below, HeapLaws, IsValid, Popped, pop-Popped}

pub data Call (D : Type 0) : Type 0 where
  pushes : WarmupJob D → Call D
  pops peeks clears : Call D

pub List-cases : {A : Type 0} (xs : List A) → (xs ≡ []) ⊎ ((y : A) × (ys : List A) × (xs ≡ y ∷ ys))
List-cases [] = inl refl
List-cases (y ∷ ys) = inr (y, ys, refl)

module _ {D : Type 0} where
  -- No job has a priority above that of the first.
  abbrev pub Greatest : WarmupJob D → List (WarmupJob D) → Type 0
  Greatest job [] = Unit {0}
  Greatest job (other ∷ rest) = (other.priority ≤ℤ job.priority) × Greatest job rest

  pub Below-Greatest :
      (job : WarmupJob D) (xs : List (JobQueue D))
      → Agree xs
      → Below job.priority (priorities xs)
      → Greatest job (jobs xs)
  Below-Greatest job [] a b = tt
  Below-Greatest job (x ∷ xs) a b = (rw (← a.0) b.0, Below-Greatest job xs a.1 b.1)

  -- The replies that a bag gives to the calls, and the bag in the end. The bag is a list in any order;
  -- of several jobs with the greatest priority it gives any.
  unfoldable pub Explains :
      List (Call D) → List (WarmupJob D) → List (Option (WarmupJob D)) → List (WarmupJob D) → Type 0
  Explains [] bag [] last = Perm bag last
  Explains [] bag (r ∷ rs) last = ⊥
  Explains (pushes job ∷ calls) bag rs last = Explains calls (job ∷ bag) rs last
  Explains (clears ∷ calls) bag rs last = Explains calls [] rs last
  Explains (pops ∷ calls) bag [] last = ⊥
  Explains (pops ∷ calls) bag (none ∷ rs) last = (bag ≡ []) × Explains calls bag rs last
  Explains (pops ∷ calls) bag (some job ∷ rs) last =
      (rest : List (WarmupJob D)) × Perm bag (job ∷ rest)
      × Greatest job rest
      × Explains calls rest rs last
  Explains (peeks ∷ calls) bag [] last = ⊥
  Explains (peeks ∷ calls) bag (none ∷ rs) last = (bag ≡ []) × Explains calls bag rs last
  Explains (peeks ∷ calls) bag (some job ∷ rs) last =
      (rest : List (WarmupJob D)) × Perm bag (job ∷ rest)
      × Greatest job rest
      × Explains calls bag rs last

  reply :
      {Q : Type 0}
      → Option (WarmupJob D)
      → Option (Q × List (Option (WarmupJob D)))
      → Option (Q × List (Option (WarmupJob D)))
  reply r none = none
  reply r (some (q, rs)) = some (q, r ∷ rs)

module _ {D : Type 0} (heap : HeapPackage) where
  -- The calls of one caller after the other; `none` is a panic.
  unfoldable pub run :
      List (Call D) → PriorityQueue D → Option (PriorityQueue D × List (Option (WarmupJob D)))
  unfolding reply
  run [] pq = some (pq, [])
  run (pushes job ∷ calls) pq = elim (push heap pq job) [ none ↦ none | some pq' ↦ run calls pq' ]
  run (clears ∷ calls) pq = elim (clear heap pq) [ none ↦ none | some pq' ↦ run calls pq' ]
  run (peeks ∷ calls) pq = reply (peek pq) (run calls pq)
  run (pops ∷ calls) pq = elim (pop heap pq) [
    | none ↦ none
    | some (pq', r) ↦ reply r (run calls pq')
  ]

  module _ (Ordered : List ℤ → Type 0) (laws : HeapLaws heap Ordered) where
    -- What a run comes to from a bag of jobs.
    record Explained (calls : List (Call D)) (pq : PriorityQueue D) (bag : List (WarmupJob D))
        : Type 0 where
      queue : PriorityQueue D
      replies : List (Option (WarmupJob D))
      found : run calls pq ≡ some (queue, replies)
      valid : IsValid heap Ordered queue
      explains : Explains calls bag replies (jobs queue.items)

    pub Popped-at :
        (pq : PriorityQueue D) (x : JobQueue D) (xs : List (JobQueue D))
        → pq.items ≡ x ∷ xs
        → IsValid heap Ordered pq
        → Popped heap Ordered laws pq
    Popped-at pq x xs e v =
        let same : pq ≡ record { items = x ∷ xs } =
          ap (λ (l : List (JobQueue D)). record { items = l }) e in
        subst (Popped heap Ordered laws) (sym same)
          (pop-Popped heap Ordered laws x xs (subst (IsValid heap Ordered) same v))
