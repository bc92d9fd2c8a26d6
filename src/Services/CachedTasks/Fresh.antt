-- ===== src/Services/CachedTasks/Fresh.antt =====
-- What readers of cached_tasks.go get after an update, on a cache without Redis.
use task_management_api.Shared.{
  ℕ, ◌≡◌, refl, Option, none, inl, inr, [], Bytes, bytes_eq_refl, arith, Option-cases,
}
use task_management_api.Shared.Int.{pos}
use task_management_api.Cache.Memory.View.{IsValid, view}
use task_management_api.Cache.MultiLevel.{MultiLevelCache, Clock}
use task_management_api.Models.{Uuid, Task}
use task_management_api.Services.CachedTasks.{
  Env, CachedTaskService, task_key, page_key, all_tasks, drop, drop_owner, drop_lists,
  get_task_by_id, get_tasks, get_tasks_paginated, update_task, zero_task,
}
use task_management_api.Services.CachedTasks.Keys.{pages_match}
use task_management_api.Services.CachedTasks.Local.{
  Local, drop-Local, drop-view, drop_owner-Local, drop_owner-none, drop_lists-Local,
  drop_lists-view, read_misses,
}

module _ {R J D S : Type 0} (env : Env R J D S) where
  module _ (s : CachedTaskService R D S) (p : ℕ) (asked stored : Clock)
      (l : Local env s.cache) where
    task_fresh :
        (id : Uuid)
        → view s.cache.l1 asked.entered (task_key env id) ≡ none
        → let (_, task, err) = get_task_by_id env s p id asked stored in
          (task, err) ≡ env.task_service.get_task_by_id s.db id
    unfolding get_task_by_id
    task_fresh id h =
        rw
          (
            get_task_by_id,
            read_misses env s.cache (task_key env id) p (env.documents.of_task zero_task) asked l h,
          )
          (elim (Option-cases ((env.task_service.get_task_by_id s.db id).1)) [
            | inl e ↦ rw e refl
            | inr (x, e) ↦ rw e refl
          ])

    list_fresh :
        view s.cache.l1 asked.entered all_tasks ≡ none
        → let (_, tasks, err) = get_tasks env s p asked stored in
          (tasks, err) ≡ env.task_service.get_tasks s.db
    unfolding get_tasks
    list_fresh h =
        rw (get_tasks, read_misses env s.cache all_tasks p (env.documents.of_tasks []) asked l h)
          (elim (Option-cases ((env.task_service.get_tasks s.db).1)) [
            | inl e ↦ rw e refl
            | inr (x, e) ↦ rw e refl
          ])

    page_fresh :
        (sort_by order page page_size : Bytes)
        → view s.cache.l1 asked.entered (page_key env sort_by order page page_size) ≡ none
        → let (_, tasks, total, err) =
            get_tasks_paginated env s p sort_by order page page_size asked stored in
          (tasks, total, err)
          ≡ env.task_service.get_tasks_paginated s.db sort_by order page page_size
    unfolding get_tasks_paginated
    page_fresh sort_by order page page_size h =
        rw
          (
            get_tasks_paginated,
            read_misses env s.cache (page_key env sort_by order page page_size) p
                (env.documents.of_page [] (pos 0)) asked l h,
          )
          (elim (Option-cases
            ((env.task_service.get_tasks_paginated s.db sort_by order page page_size).2)) [
              | inl e ↦ rw e refl
              | inr (x, e) ↦ rw e refl
            ])

  -- The replies of the service to the three reads, of a task, of all tasks and of a page, are those
  -- of the wrapped service.
  abbrev pub Fresh :
      CachedTaskService R D S
      → Uuid
      → ℕ
      → (asked stored : Clock) → (sort_by order page page_size : Bytes) → Type 0
  Fresh s id p asked stored sort_by order page page_size =
      let (_, task, task_err) = get_task_by_id env s p id asked stored in
      let (_, tasks, tasks_err) = get_tasks env s p asked stored in
      let (_, rows, total, rows_err) =
        get_tasks_paginated env s p sort_by order page page_size asked stored in
      ((task, task_err) ≡ env.task_service.get_task_by_id s.db id)
      × ((tasks, tasks_err) ≡ env.task_service.get_tasks s.db)
      × ((rows, total, rows_err)
          ≡ env.task_service.get_tasks_paginated s.db sort_by order page page_size)

  dropped-Fresh :
      (c : MultiLevelCache R D) (db : S) (id : Uuid) (owner : Task × Option Bytes)
      (dropped lists_dropped : Clock) (p : ℕ) (asked stored : Clock) (a b d e : Bytes)
      → Local env c
      → Fresh
          (record {
            cache =
                drop_lists env
                  (drop_owner env (drop env c (task_key env id) dropped) owner)
                  lists_dropped;
            db = db;
          })
          id
          p
          asked
          stored
          a
          b
          d
          e
  dropped-Fresh c db id owner dropped lists_dropped p asked stored a b d e l =
      let c1 = drop env c (task_key env id) dropped in
      let l1 = drop-Local env c (task_key env id) dropped l in
      let c2 = drop_owner env c1 owner in
      let l2 = drop_owner-Local env c1 owner l1 in
      let seen = λ (j : Bytes). drop_lists-view env c2 j lists_dropped asked.entered l2 in
      let l3 = drop_lists-Local env c2 lists_dropped l2 in
      let s : CachedTaskService R D S = record {
        cache = drop_lists env c2 lists_dropped;
        db = db;
      } in
      let gone = drop_owner-none env c1 owner (task_key env id) asked.entered l1 (
        ground (
          arith,
          drop-view env c (task_key env id) (task_key env id) dropped asked.entered l,
          bytes_eq_refl (task_key env id),
        )) in
      (
        task_fresh s p asked stored l3 id (ground (arith, seen (task_key env id), gone)),
        list_fresh s p asked stored l3 (ground (arith, seen all_tasks, bytes_eq_refl all_tasks)),
        page_fresh s p asked stored l3 a b d e
            (ground (arith, seen (page_key env a b d e), pages_match env a b d e)),
      )

  -- Without Redis, after an `UpdateTask` that succeeded, `GetTaskByID` of the task, `GetTasks` and
  -- `GetTasksPaginated` reply what the wrapped service replies on the database as it is then,
  -- whatever the cache held.
  pub update_task-Fresh :
      (s : CachedTaskService R D S) (id : Uuid) (task : Task) (dropped lists_dropped : Clock)
      (p : ℕ) (asked stored : Clock) (sort_by order page page_size : Bytes)
      → s.cache.l2 ≡ none
      → IsValid s.cache.l1
      → (env.task_service.update_task s.db id task).1 ≡ none
      → Fresh
          (update_task env s id task dropped lists_dropped).0
          id
          p
          asked
          stored
          sort_by
          order
          page
          page_size
  unfolding update_task
  update_task-Fresh s id task dropped lists_dropped p asked stored a b d e alone once ok =
      rw (update_task, ok)
        (dropped-Fresh s.cache _ id
          (env.task_service.get_task_by_id (env.task_service.update_task s.db id task).0 id) dropped
          lists_dropped p asked stored a b d e (record { alone = alone; once = once }))
