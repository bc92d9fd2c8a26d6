-- ===== src/Cache/Memory/Tests.antt =====
-- The memory cache at concrete inputs.
use task_management_api.Shared.{
  ℕ, ◌≡◌, refl, ◌↔◌, true, none, some, List, [], ◌∷◌, arith, Bytes, bytes, bytes_eq,
}
use task_management_api.Shared.Int.{pos, Time, ◌+ℤ◌}
use task_management_api.Cache.Pattern.{match_pattern, Matches, match_pattern_iff}
use task_management_api.Cache.Memory.{MemoryCache, look, set, new_memory_cache}
use task_management_api.Cache.Memory.View.{view}
use task_management_api.Cache.Memory.Race.{get_around, get_around_loses_set}
use task_management_api.Cache.Memory.Refinement.{
  Call, sets, gets, asks, deletes_pattern, sweeps, replies, ideal_replies, replies-ideal_replies,
}

abbrev task : Bytes
task = bytes "task:7"

match_pattern_iff_example :
    (match_pattern task (bytes "task:*") ≡ true) ↔ Matches task (bytes "task:*")
match_pattern_iff_example = match_pattern_iff task (bytes "task:*")

-- The entry expires at 60, and is swept away at 70.
abbrev calls : List (Time × Call ℕ)
calls =
    (pos 0, sets task 5 (pos 60))
    ∷ (pos 30, gets task)
    ∷ (pos 61, asks task)
    ∷ (pos 70, sweeps)
    ∷ (pos 71, deletes_pattern (bytes "task:*"))
    ∷ (pos 72, gets task)
    ∷ []

replies-ideal_replies_example : replies new_memory_cache calls ≡ ideal_replies (λ _. none) calls
replies-ideal_replies_example = replies-ideal_replies (pos 0) calls (omega arith)

abbrev old : MemoryCache ℕ
old = record { store = (task, record { value = 5; expiration = pos 60 }) ∷ [] }

get_around_loses_set_example :
    (view (set old task 6 (pos 100) (pos 80)) (pos 90) task ≡ some 6)
    × (view (get_around (λ c. set c task 6 (pos 100) (pos 80)) old task (pos 75)).0 (pos 90) task
        ≡ none)
unfolding look ◌+ℤ◌ bytes_eq
get_around_loses_set_example =
    get_around_loses_set old task 6 (pos 100) (pos 75) (pos 80) (pos 90) refl (omega arith)
