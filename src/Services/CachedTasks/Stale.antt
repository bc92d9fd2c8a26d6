-- ===== src/Services/CachedTasks/Stale.antt =====
-- The list of one user's tasks in cached_tasks.go, which the writes fail to delete.
use task_management_api.Shared.{
  ℕ, ◌≡◌, refl, ◌∙◌, Option, none, some, [], Bytes, length, arith, ==_iff,
}
use task_management_api.Cache.Values.{plain, assign, encoded}
use task_management_api.Cache.Memory.View.{IsValid, view, get-view}
use task_management_api.Shared.Int.{Time}
use task_management_api.Cache.MultiLevel.{MultiLevelCache, Clock}
use task_management_api.Cache.MultiLevel.Reads.{get_hit}
use task_management_api.Models.{Uuid, Task}
use task_management_api.Services.CachedTasks.{
  Env, CachedTaskService, task_key, user_key, user_pattern, drop, drop_owner, drop_lists,
  get_tasks_by_user, update_task,
}
use task_management_api.Services.CachedTasks.Keys.{
  user_key-unmatched, user_key-no_page, user_key-others,
}
use task_management_api.Services.CachedTasks.Local.{
  Local, drop-Local, drop-view, drop_pattern-view, drop_owner-Local, drop_lists-view,
}

module _ {R J D S : Type 0} (env : Env R J D S)
    (same : (v w : Uuid) → length (env.uuid_string v) ≡ length (env.uuid_string w)) where
  drop_owner-keeps :
      (c : MultiLevelCache R D) (owner : Task × Option Bytes) (u : Uuid) (t : Time)
      → Local env c
      → view (drop_owner env c owner).l1 t (user_key env u) ≡ view c.l1 t (user_key env u)
  drop_owner-keeps c (task, none) u t l = ground (
    arith,
    drop_pattern-view env c (user_pattern env task.user_id) (user_key env u) t l,
    user_key-unmatched env u task.user_id (same u task.user_id),
  )
  drop_owner-keeps c (task, some e) u t l = refl

  dropped_keeps :
      (c : MultiLevelCache R D) (id u : Uuid) (owner : Task × Option Bytes)
      (dropped lists_dropped : Clock) (t : Time)
      → Local env c
      → view
          (drop_lists env
            (drop_owner env (drop env c (task_key env id) dropped) owner)
            lists_dropped).l1
          t
          (user_key env u)
        ≡ view c.l1 t (user_key env u)
  dropped_keeps c id u owner dropped lists_dropped t l =
      let (not_task, not_all) = user_key-others env u id in
      let c1 = drop env c (task_key env id) dropped in
      let l1 = drop-Local env c (task_key env id) dropped l in
      (drop_lists-view env (drop_owner env c1 owner) (user_key env u) lists_dropped t
          (drop_owner-Local env c1 owner l1)
        ∙ rw (not_all, user_key-no_page env u) refl)
      ∙ drop_owner-keeps c1 owner u t l1
      ∙ (drop-view env c (task_key env id) (user_key env u) dropped t l ∙ rw not_task refl)

  cached_list :
      (s : CachedTaskService R D S) (u : Uuid) (p : ℕ) (asked stored : Clock) (d d' : D) (j : J)
      → view s.cache.l1 asked.entered (user_key env u) ≡ some (plain d)
      → env.json.marshal d ≡ encoded j
      → env.json.unmarshal j (env.documents.of_tasks []) ≡ (d', none)
      → let (_, tasks, err) = get_tasks_by_user env s p u asked stored in
        (tasks ≡ env.documents.to_tasks d') × (err ≡ none)
  unfolding get_tasks_by_user
  cached_list s u p asked stored d d' j h m v =
      let c : MultiLevelCache R D = record s.cache {
        heap = assign s.cache.heap p (env.documents.of_tasks []);
      } in
      let own : assign s.cache.heap p (env.documents.of_tasks []) p ≡ env.documents.of_tasks [] =
        ground (arith, ==_iff p p) in
      let (ok, held, _, _) =
        get_hit env.client env.json c (user_key env u) p asked (plain d) j d'
          (get-view c.l1 (user_key env u) asked.entered ∙ h) m (rw own v) in
      rw (get_tasks_by_user, ok, held) (refl, refl)

  -- Without Redis, a cached list of a user's tasks outlives every successful `UpdateTask`: until the
  -- entry expires `GetTasksByUser` replies the list of before, decoded, whatever is in the database.
  -- It is assumed that all UUIDs print at one length.
  pub user_list_outlives :
      (s : CachedTaskService R D S) (id u : Uuid) (task : Task) (dropped lists_dropped : Clock)
      (p : ℕ) (asked stored : Clock) (d d' : D) (j : J)
      → s.cache.l2 ≡ none
      → IsValid s.cache.l1
      → (env.task_service.update_task s.db id task).1 ≡ none
      → view s.cache.l1 asked.entered (user_key env u) ≡ some (plain d)
      → env.json.marshal d ≡ encoded j
      → env.json.unmarshal j (env.documents.of_tasks []) ≡ (d', none)
      → let (s', _) = update_task env s id task dropped lists_dropped in
        let (_, tasks, err) = get_tasks_by_user env s' p u asked stored in
        (tasks ≡ env.documents.to_tasks d') × (err ≡ none)
  unfolding update_task
  user_list_outlives s id u task dropped lists_dropped p asked stored d d' j alone once ok h m v =
      let db = (env.task_service.update_task s.db id task).0 in
      let owner = env.task_service.get_task_by_id db id in
      let cache =
        drop_lists env (drop_owner env (drop env s.cache (task_key env id) dropped) owner)
          lists_dropped in
      let kept =
        dropped_keeps s.cache id u owner dropped lists_dropped asked.entered
          (record { alone = alone; once = once }) in
      rw (update_task, ok)
        (cached_list (record { cache = cache; db = db }) u p asked stored d d' j (kept ∙ h) m v)
