-- ===== src/Cache/PriorityQueue.antt =====
-- backend/internal/cache/priority_queue.go: the methods that container/heap calls, and the queue over
-- it. The package is a parameter: it sees the items through `Less` alone, so for the priorities in
-- their order it says which pairs of indices it swaps. A method is one atomic step, as the mutex makes
-- it, and `none` is a panic.
pub mod Items
pub mod Invariant
pub mod Order
pub mod Sorted
mod Tests
use task_management_api.Shared.{
  ℕ, Bool, Option, none, some, List, [], ◌∷◌, ◌++◌, map, length, get_elem?, set, ◌==◌,
  if◌then◌else◌,
}
use task_management_api.Shared.Int.{ℤ, pos, negsuc, ltb_ℤ}
use task_management_api.Cache.Jobs.{WarmupJob}

pub record JobQueue (D : Type 0) : Type 0 where
  pub job : WarmupJob D
  pub priority : ℤ
  pub index : ℤ

pub record PriorityQueue (D : Type 0) : Type 0 where
  pub items : List (JobQueue D)

-- The swaps of `Init`, of `Push` after the new item was appended, and of `Pop` before the last item
-- is taken off.
pub record HeapPackage : Type 0 where
  pub init : List ℤ → List (ℕ × ℕ)
  pub push : List ℤ → List (ℕ × ℕ)
  pub pop : List ℤ → List (ℕ × ℕ)

module _ {D : Type 0} where
  pub less : JobQueue D → JobQueue D → Bool
  less a b = ltb_ℤ b.priority a.priority

  abbrev pub priorities : List (JobQueue D) → List ℤ
  priorities = map (λ (item : JobQueue D). item.priority)

  abbrev pub jobs : List (JobQueue D) → List (WarmupJob D)
  jobs = map (λ (item : JobQueue D). item.job)

  unfoldable pub swap : List (JobQueue D) → ℕ → ℕ → Option (List (JobQueue D))
  swap items i j = elim (get_elem? items i) [
    | none ↦ none
    | some a ↦ elim (get_elem? items j) [
      | none ↦ none
      | some b ↦
          some (set (set items i (record b { index = pos i })) j (record a { index = pos j }))
    ]
  ]

  unfoldable pub heap_push : List (JobQueue D) → JobQueue D → List (JobQueue D)
  heap_push items item = items ++ record item { index = pos (length items) } ∷ []

  -- The rest and the last item.
  unfoldable pub heap_pop : List (JobQueue D) → Option (List (JobQueue D) × JobQueue D)
  heap_pop [] = none
  heap_pop (x ∷ xs) = elim (heap_pop xs) [
    | none ↦ some ([], record x { index = negsuc 0 })
    | some (rest, item) ↦ some (x ∷ rest, item)
  ]

  unfoldable pub run_swaps : List (ℕ × ℕ) → List (JobQueue D) → Option (List (JobQueue D))
  unfolding swap
  run_swaps [] items = some items
  run_swaps ((i, j) ∷ swaps) items = elim (swap items i j) [
    | none ↦ none
    | some items' ↦ run_swaps swaps items'
  ]

  abbrev pub queue_of : Option (List (JobQueue D)) → Option (PriorityQueue D)
  queue_of none = none
  queue_of (some items) = some (record { items = items })

module _ {D : Type 0} (heap : HeapPackage) where
  unfoldable pub new_priority_queue : Option (PriorityQueue D)
  unfolding run_swaps
  new_priority_queue = queue_of (run_swaps (heap.init []) [])

  unfoldable pub push : PriorityQueue D → WarmupJob D → Option (PriorityQueue D)
  unfolding heap_push run_swaps
  push pq job =
      let items =
        heap_push pq.items (record { job = job; priority = job.priority; index = pos 0 }) in
      queue_of (run_swaps (heap.push (priorities items)) items)

  -- The queue and the job, or `none` for an empty queue.
  unfoldable pub pop : PriorityQueue D → Option (PriorityQueue D × Option (WarmupJob D))
  unfolding heap_pop run_swaps
  pop pq =
      if length pq.items == 0
      then some (pq, none)
      else elim (run_swaps (heap.pop (priorities pq.items)) pq.items) [
        | none ↦ none
        | some items ↦ elim (heap_pop items) [
          | none ↦ none
          | some (rest, item) ↦ some (record { items = rest }, some item.job)
        ]
      ]

  unfoldable pub clear : PriorityQueue D → Option (PriorityQueue D)
  unfolding run_swaps
  clear pq = queue_of (run_swaps (heap.init []) [])

module _ {D : Type 0} where
  unfoldable pub peek : PriorityQueue D → Option (WarmupJob D)
  peek pq = elim (get_elem? pq.items 0) [ none ↦ none | some item ↦ some item.job ]

  unfoldable pub len : PriorityQueue D → ℕ
  len pq = length pq.items

  unfoldable pub is_empty : PriorityQueue D → Bool
  unfolding len
  is_empty pq = len pq == 0

  unfoldable pub get_jobs : PriorityQueue D → List (WarmupJob D)
  get_jobs pq = jobs pq.items
