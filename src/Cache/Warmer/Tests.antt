-- ===== src/Cache/Warmer/Tests.antt =====
-- Warm-ups of warmer.go without a worker pool, of a cache that is the list of what was stored.
use task_management_api.Shared.{
  ℕ, ◌+◌, ◌*◌, ◌≤◌, ◌≡◌, ◌⊎◌, refl, true, false, none, List, [], ◌∷◌, length, arith,
}
use task_management_api.Shared.Int.{pos, negsuc}
use task_management_api.Cache.Jobs.{WarmupJob}
use task_management_api.Cache.WorkerPool.Workers.{CacheSet}
use task_management_api.Cache.Warmer.Helpers.{
  Turn, sends, receives, cancels, tests, stores, begin_batch, is_over, run_turns,
}
use task_management_api.Cache.Warmer.Ends.{moves, CanMove, process_batch-ends}
use task_management_api.Cache.Warmer.Rounds.{
  completed, was_cancelled, goes_on, panicked, warm_directly,
}
use task_management_api.Cache.Warmer.Warmed.{Warmed, warm_directly-Warmed}

abbrev store : CacheSet (List ℕ) ℕ
store held key value ttl = (value ∷ held, none)

abbrev job : ℕ → WarmupJob ℕ
job n = record { key = n ∷ []; value = n; ttl = pos 60; priority = pos n }

abbrev three : List (WarmupJob ℕ)
three = job 3 ∷ job 2 ∷ job 1 ∷ []

-- Two goroutines, of which the second one is the first to store.
abbrev crossed : List Turn
crossed =
    sends
    ∷ sends
    ∷ sends
    ∷ receives
    ∷ receives
    ∷ tests 0
    ∷ tests 0
    ∷ stores 1
    ∷ stores 0
    ∷ receives
    ∷ receives
    ∷ []

abbrev alone : List Turn
alone = sends ∷ sends ∷ receives ∷ tests 0 ∷ stores 0 ∷ receives ∷ []

abbrev sent : List Turn
sent = sends ∷ sends ∷ sends ∷ []

stores_all :
    warm_directly store (crossed ∷ alone ∷ [] ∷ []) three (pos 2) (pos 3) []
    ≡ completed (1 ∷ 3 ∷ 2 ∷ [])
unfolding warm_directly
stores_all = refl

stops_when_cancelled :
    warm_directly store ((cancels ∷ crossed) ∷ alone ∷ []) three (pos 2) (pos 3) []
    ≡ was_cancelled []
unfolding warm_directly
stops_when_cancelled = refl

-- Without a goroutine the jobs are sent and dropped, and the warm-up completes.
nothing_stored : warm_directly store (sent ∷ sent ∷ []) three (pos 2) (pos 0) [] ≡ completed []
unfolding warm_directly
nothing_stored = refl

-- Batches of no jobs come to no end, and a negative size panics.
zero_goes_on :
    warm_directly store ((sends ∷ []) ∷ (sends ∷ []) ∷ (sends ∷ []) ∷ []) three (pos 0) (pos 3) []
    ≡ goes_on []
unfolding warm_directly
zero_goes_on = refl

negative_panics : warm_directly store (alone ∷ []) three (negsuc 0) (pos 3) [] ≡ panicked
unfolding warm_directly
negative_panics = refl

warm_directly-Warmed_example :
    Warmed store 2 [] three
      (warm_directly store (crossed ∷ alone ∷ [] ∷ []) three (pos 2) (pos 3) [])
warm_directly-Warmed_example =
    warm_directly-Warmed store (crossed ∷ alone ∷ [] ∷ []) three 1 2 [] (omega arith) (omega arith)

process_batch-ends_example :
    (moves store alone (begin_batch [] false three (pos 2)) ≤ 5 * length three + 1)
    × ((is_over (run_turns store alone (begin_batch [] false three (pos 2))) ≡ true)
        ⊎ CanMove store (run_turns store alone (begin_batch [] false three (pos 2))))
process_batch-ends_example = process_batch-ends store alone [] false three (pos 2)
