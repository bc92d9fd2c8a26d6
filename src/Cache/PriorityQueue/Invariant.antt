-- ===== src/Cache/PriorityQueue/Invariant.antt =====
-- The well-formed queues of priority_queue.go, and that its methods keep them so.
use task_management_api.Shared.{
  ℕ, suc, ◌+◌, ◌≡◌, refl, ap, ap₂, some, List, [], ◌∷◌, ◌++◌, length, arith,
}
use task_management_api.Shared.Int.{ℤ, pos, negsuc, ◌≤ℤ◌}
use mathlib.Core.List.{Perm}
use mathlib.Core.List.Perm
use task_management_api.Cache.Jobs.{WarmupJob}
use task_management_api.Cache.PriorityQueue.{
  JobQueue, PriorityQueue, HeapPackage, priorities, jobs, heap_push, heap_pop, run_swaps,
  new_priority_queue, push, pop, clear,
}
use task_management_api.Cache.PriorityQueue.Items.{Agree, Indexed, run_exchanges, run_swaps-Swapped}

-- No priority is above `p`.
abbrev pub Below : ℤ → List ℤ → Type 0
Below p [] = Unit {0}
Below p (q ∷ qs) = (q ≤ℤ p) × Below p qs

-- What the package promises of slices that are heaps, `Ordered`: `Init` has nothing to do on an empty
-- slice, `Push` and `Pop` swap in range and leave a heap, the root is the greatest, and `Pop` brings
-- it to the end.
pub record HeapLaws (heap : HeapPackage) (Ordered : List ℤ → Type 0) : Type 0 where
  pub init_empty : (heap.init [] ≡ []) × Ordered []
  pub push_keeps :
      (ps : List ℤ) (p : ℤ)
      → Ordered ps
      → (qs : List ℤ) × (run_exchanges (heap.push (ps ++ p ∷ [])) (ps ++ p ∷ []) ≡ some qs)
        × Ordered qs
  pub root_greatest : (p : ℤ) (ps : List ℤ) → Ordered (p ∷ ps) → Below p ps
  pub pop_greatest :
      (p : ℤ) (ps : List ℤ)
      → Ordered (p ∷ ps)
      → (qs : List ℤ) × (run_exchanges (heap.pop (p ∷ ps)) (p ∷ ps) ≡ some (qs ++ p ∷ []))
        × Ordered qs
        × Below p qs

module _ {D : Type 0} where
  push-Agree :
      (xs : List (JobQueue D)) (x : JobQueue D)
      → x.priority ≡ x.job.priority
      → Agree xs
      → Agree (xs ++ x ∷ [])
  push-Agree [] x e a = (e, tt)
  push-Agree (y ∷ ys) x e a = (a.0, push-Agree ys x e a.1)

  push-Indexed :
      (k : ℕ) (xs : List (JobQueue D)) (x : JobQueue D)
      → x.index ≡ pos (k + length xs)
      → Indexed k xs
      → Indexed k (xs ++ x ∷ [])
  push-Indexed k [] x e a = (ground arith, tt)
  push-Indexed k (y ∷ ys) x e a = (a.0, push-Indexed (suc k) ys x (ground arith) a.1)

  priorities-append :
      (xs : List (JobQueue D)) (x : JobQueue D)
      → priorities (xs ++ x ∷ []) ≡ priorities xs ++ x.priority ∷ []
  priorities-append [] x = refl
  priorities-append (y ∷ ys) x = ap (◌∷◌ y.priority) (priorities-append ys x)

  jobs-append :
      (xs : List (JobQueue D)) (x : JobQueue D) → Perm (jobs (xs ++ x ∷ [])) (x.job ∷ jobs xs)
  jobs-append [] x = Perm.rfl
  jobs-append (y ∷ ys) x =
      Perm.trans (Perm.cons y.job (jobs-append ys x)) (Perm.swap x.job y.job (jobs ys))

  -- The last item, taken off a slice.
  pub record Taken (qs : List ℤ) (p : ℤ) (k : ℕ) (xs : List (JobQueue D)) : Type 0 where
    pub rest : List (JobQueue D)
    pub item : JobQueue D
    pub found : heap_pop xs ≡ some (rest, item)
    pub order : priorities rest ≡ qs
    pub agree : Agree rest
    pub indexed : Indexed k rest
    pub greatest : item.job.priority ≡ p
    pub same_jobs : Perm (jobs xs) (item.job ∷ jobs rest)

  pub pop-Taken :
      (qs : List ℤ) (p : ℤ) (k : ℕ) (xs : List (JobQueue D))
      → priorities xs ≡ qs ++ p ∷ []
      → Agree xs
      → Indexed k xs
      → Taken qs p k xs
  unfolding heap_pop
  pop-Taken [] p k [] e a d = absurd (ground arith)
  pop-Taken (q ∷ qs) p k [] e a d = absurd (ground arith)
  pop-Taken [] p k (x ∷ []) e a d = record {
    rest = [];
    item = record x { index = negsuc 0 };
    found = refl;
    order = refl;
    agree = tt;
    indexed = tt;
    greatest = ground arith;
    same_jobs = Perm.rfl;
  }
  pop-Taken [] p k (x ∷ y ∷ ys) e a d = absurd (ground arith)
  pop-Taken (q ∷ qs) p k (x ∷ xs) e a d =
      let t = pop-Taken qs p (suc k) xs (ground arith) a.1 d.1 in
      record {
        rest = x ∷ t.rest;
        item = t.item;
        found = rw (heap_pop, t.found) refl;
        order = ap₂ ◌∷◌ (ground arith) t.order;
        agree = (a.0, t.agree);
        indexed = (d.0, t.indexed);
        greatest = t.greatest;
        same_jobs =
            Perm.trans (Perm.cons x.job t.same_jobs) (Perm.swap t.item.job x.job (jobs t.rest));
      }

module _ {D : Type 0} (heap : HeapPackage) (Ordered : List ℤ → Type 0) where
  -- The slice is a heap, and each item has its job's priority and knows its index.
  pub record IsValid (pq : PriorityQueue D) : Type 0 where
    pub ordered : Ordered (priorities pq.items)
    pub agree : Agree pq.items
    pub indexed : Indexed 0 pq.items

  module _ (laws : HeapLaws heap Ordered) where
    pub push-IsValid :
        (pq : PriorityQueue D) (job : WarmupJob D)
        → IsValid pq
        → (pq' : PriorityQueue D) × (push heap pq job ≡ some pq')
          × IsValid pq'
          × Perm (jobs pq'.items) (job ∷ jobs pq.items)
    unfolding push heap_push
    push-IsValid pq job v =
        let item : JobQueue D = record {
          job = job;
          priority = job.priority;
          index = pos (length pq.items);
        } in
        let items = pq.items ++ item ∷ [] in
        let e = priorities-append pq.items item in
        let (qs, r, o) = laws.push_keeps (priorities pq.items) job.priority v.ordered in
        let (ys, s, w) =
          run_swaps-Swapped (heap.push (priorities items)) items qs (rw e r)
            (push-Agree pq.items item refl v.agree)
            (push-Indexed 0 pq.items item (ground arith) v.indexed) in
        (
          record { items = ys },
          rw (push, heap_push, s) refl,
          record { ordered = rw w.order o; agree = w.agree; indexed = w.indexed },
          Perm.trans w.same_jobs (jobs-append pq.items item),
        )

    -- What `Pop` does to a queue that is not empty.
    pub record Popped (pq : PriorityQueue D) : Type 0 where
      pub queue : PriorityQueue D
      pub job : WarmupJob D
      pub found : pop heap pq ≡ some (queue, some job)
      pub valid : IsValid queue
      pub greatest : Below job.priority (priorities queue.items)
      pub same_jobs : Perm (jobs pq.items) (job ∷ jobs queue.items)

    pub pop-Popped :
        (x : JobQueue D) (xs : List (JobQueue D))
        → IsValid (record { items = x ∷ xs })
        → Popped (record { items = x ∷ xs })
    unfolding pop
    pop-Popped x xs v =
        let (qs, r, o, b) = laws.pop_greatest x.priority (priorities xs) v.ordered in
        let (ys, s, w) =
          run_swaps-Swapped (heap.pop (priorities (x ∷ xs))) (x ∷ xs) (qs ++ x.priority ∷ []) r
            v.agree v.indexed in
        let t = pop-Taken qs x.priority 0 ys w.order w.agree w.indexed in
        record {
          queue = record { items = t.rest };
          job = t.item.job;
          found = rw (pop, s, t.found) (ground arith);
          valid = record { ordered = rw t.order o; agree = t.agree; indexed = t.indexed };
          greatest = rw (t.greatest, t.order) b;
          same_jobs = Perm.trans (Perm.symm w.same_jobs) t.same_jobs;
        }

    pub new-IsValid :
        (pq : PriorityQueue D) × (new_priority_queue heap ≡ some pq) × IsValid pq × (pq.items ≡ [])
    unfolding new_priority_queue run_swaps
    new-IsValid = (
      record { items = [] },
      rw (new_priority_queue, laws.init_empty.0) refl,
      record { ordered = laws.init_empty.1; agree = tt; indexed = tt },
      refl,
    )

    pub clear-IsValid :
        (pq : PriorityQueue D)
        → (pq' : PriorityQueue D) × (clear heap pq ≡ some pq') × IsValid pq' × (pq'.items ≡ [])
    unfolding clear run_swaps
    clear-IsValid pq = (
      record { items = [] },
      rw (clear, laws.init_empty.0) refl,
      record { ordered = laws.init_empty.1; agree = tt; indexed = tt },
      refl,
    )
