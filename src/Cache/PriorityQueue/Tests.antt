-- ===== src/Cache/PriorityQueue/Tests.antt =====
-- Runs of calls of the queue of priority_queue.go, over a package that keeps each slice sorted.
use task_management_api.Shared.{ℕ, ◌≡◌, refl, Option, none, some, List, [], ◌∷◌, bytes}
use task_management_api.Shared.Int.{pos}
use task_management_api.Cache.Jobs.{WarmupJob}
use task_management_api.Cache.PriorityQueue.{PriorityQueue, push, pop, clear, peek}
use task_management_api.Cache.PriorityQueue.Order.{Call, pushes, pops, peeks, clears, run}
use task_management_api.Cache.PriorityQueue.Sorted.{sorting}

abbrev low : WarmupJob ℕ
low = record { key = bytes "tasks:all"; value = 1; ttl = pos 60; priority = pos 1 }

abbrev high : WarmupJob ℕ
high = record { key = bytes "users:all"; value = 2; ttl = pos 60; priority = pos 5 }

abbrev calls : List (Call ℕ)
calls = pushes low ∷ pushes high ∷ peeks ∷ pops ∷ pops ∷ pops ∷ pushes low ∷ clears ∷ peeks ∷ []

abbrev replies :
    Option (PriorityQueue ℕ × List (Option (WarmupJob ℕ))) → List (Option (WarmupJob ℕ))
replies none = []
replies (some (pq, rs)) = rs

replies_greatest_first :
    replies (run sorting calls (record { items = [] }))
    ≡ some high ∷ some high ∷ some low ∷ none ∷ none ∷ []
unfolding run push pop clear peek
replies_greatest_first = refl
