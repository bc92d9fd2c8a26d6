-- ===== src/Services/CachedTasks/Local.antt =====
-- How the deletions of cached_tasks.go change what is in a cache without Redis.
use task_management_api.Shared.{
  ℕ, ◌≡◌, refl, ap, ◌∙◌, Option, none, some, Bytes, bytes_eq, arith, if◌then◌else◌,
}
use task_management_api.Shared.Int.{Time}
use task_management_api.Cache.Errors.{cache_miss}
use task_management_api.Cache.Pattern.{match_pattern}
use task_management_api.Cache.Memory.View.{
  IsValid, view, get-view, view-delete, view-delete_pattern, delete-IsValid, delete_pattern-IsValid,
}
use task_management_api.Cache.MultiLevel
use task_management_api.Cache.MultiLevel.{MultiLevelCache, Clock}
use task_management_api.Models.{Task}
use task_management_api.Services.CachedTasks.{
  Env, user_pattern, all_tasks, all_pages, read, drop, drop_pattern, drop_owner, drop_lists,
}

module _ {R J D S : Type 0} (env : Env R J D S) where
  -- No Redis, and each key once in memory.
  pub record Local (c : MultiLevelCache R D) : Type 0 where
    pub alone : c.l2 ≡ none
    pub once : IsValid c.l1

  pub drop-Local :
      (c : MultiLevelCache R D) (key : Bytes) (clock : Clock)
      → Local c
      → Local (drop env c key clock)
  unfolding MultiLevel.delete
  drop-Local c key clock l =
      rw l.alone (record { alone = refl; once = delete-IsValid c.l1 key l.once })

  pub drop-view :
      (c : MultiLevelCache R D) (key j : Bytes) (clock : Clock) (t : Time)
      → Local c
      → view (drop env c key clock).l1 t j ≡ (if bytes_eq key j then none else view c.l1 t j)
  unfolding MultiLevel.delete
  drop-view c key j clock t l = rw l.alone (view-delete c.l1 key j t)

  pub drop_pattern-Local :
      (c : MultiLevelCache R D) (pattern : Bytes) → Local c → Local (drop_pattern env c pattern)
  unfolding MultiLevel.delete_pattern
  drop_pattern-Local c pattern l =
      rw l.alone (record { alone = refl; once = delete_pattern-IsValid c.l1 pattern l.once })

  pub drop_pattern-view :
      (c : MultiLevelCache R D) (pattern j : Bytes) (t : Time)
      → Local c
      → view (drop_pattern env c pattern).l1 t j
        ≡ (if match_pattern j pattern then none else view c.l1 t j)
  unfolding MultiLevel.delete_pattern
  drop_pattern-view c pattern j t l = rw l.alone (view-delete_pattern c.l1 pattern j t l.once)

  pub drop_owner-Local :
      (c : MultiLevelCache R D) (owner : Task × Option Bytes)
      → Local c
      → Local (drop_owner env c owner)
  drop_owner-Local c (task, none) l = drop_pattern-Local c _ l
  drop_owner-Local c (task, some e) l = l

  -- What is gone stays gone.
  pub drop_owner-none :
      (c : MultiLevelCache R D) (owner : Task × Option Bytes) (j : Bytes) (t : Time)
      → Local c
      → view c.l1 t j ≡ none
      → view (drop_owner env c owner).l1 t j ≡ none
  drop_owner-none c (task, none) j t l h =
      ground (arith, drop_pattern-view c (user_pattern env task.user_id) j t l)
  drop_owner-none c (task, some e) j t l h = h

  pub drop_lists-Local :
      (c : MultiLevelCache R D) (clock : Clock) → Local c → Local (drop_lists env c clock)
  drop_lists-Local c clock l =
      drop-Local (drop_pattern env c all_pages) all_tasks clock (drop_pattern-Local c all_pages l)

  pub drop_lists-view :
      (c : MultiLevelCache R D) (j : Bytes) (clock : Clock) (t : Time)
      → Local c
      → view (drop_lists env c clock).l1 t j ≡ (
          if bytes_eq all_tasks j
          then none
          else if match_pattern j all_pages
          then none
          else view c.l1 t j)
  drop_lists-view c j clock t l =
      drop-view (drop_pattern env c all_pages) all_tasks j clock t
        (drop_pattern-Local c all_pages l)
      ∙ ap (λ v. if bytes_eq all_tasks j then none else v) (drop_pattern-view c all_pages j t l)

  -- A read of what is not in memory misses.
  pub read_misses :
      (c : MultiLevelCache R D) (key : Bytes) (p : ℕ) (zero : D) (clock : Clock)
      → Local c
      → view c.l1 clock.entered key ≡ none
      → (read env c key p zero clock).1 ≡ some cache_miss
  unfolding MultiLevel.get
  read_misses c key p zero clock l h = ground (arith, get-view c.l1 key clock.entered, l.alone)
