-- ===== src/Services/CachedTasks.antt =====
-- backend/internal/services/cached_tasks.go: the task service behind the two-level cache. The service
-- it wraps, the interface `TaskService` of tasks.go, is a parameter over any state of the database.
-- The methods of the warmer are left out.
pub mod Keys
pub mod Local
pub mod Fresh
pub mod Stale
mod Tests
use task_management_api.Shared.{ℕ, ◌*◌, Option, none, some, List, [], ◌++◌, Bytes, bytes}
use task_management_api.Cache.Errors.{Error}
use task_management_api.Shared.Int.{ℤ, pos}
use task_management_api.Cache.Breaker.{zero_time}
use task_management_api.Cache.Values.{plain, assign, to, Json}
use task_management_api.Cache.Redis.{Client}
use task_management_api.Cache.MultiLevel
use task_management_api.Cache.MultiLevel.{MultiLevelCache, Clock}
use task_management_api.Models.{Uuid, Task}

pub record TaskService (S : Type 0) : Type 0 where
  pub create_task : S → Task → S × Option Bytes
  pub get_task_by_id : S → Uuid → Task × Option Bytes
  pub get_tasks : S → List Task × Option Bytes
  pub get_tasks_paginated :
      S → (sort_by order page page_size : Bytes) → List Task × ℤ × Option Bytes
  pub update_task : S → Uuid → Task → S × Option Bytes
  pub delete_task : S → Uuid → S × Option Bytes

-- The values that are cached, and what a variable of each of the three types holds.
pub record Documents (D : Type 0) : Type 0 where
  pub of_task : Task → D
  pub of_tasks : List Task → D
  pub of_page : List Task → ℤ → D
  pub to_task : D → Task
  pub to_tasks : D → List Task
  pub to_page : D → List Task × ℤ

-- What the service is built from; `find_by_user` is the query of `GetTasksByUser`, and `uuid_string`
-- is `String` of a UUID.
pub record Env (R J D S : Type 0) : Type 0 where
  pub client : Client R J
  pub json : Json J D
  pub documents : Documents D
  pub task_service : TaskService S
  pub find_by_user : S → Uuid → List Task × Option Bytes
  pub uuid_string : Uuid → Bytes

pub record CachedTaskService (R D S : Type 0) : Type 0 where
  pub cache : MultiLevelCache R D
  pub db : S

abbrev pub minutes : ℕ → ℤ
minutes n = pos (n * 60_000_000_000)

abbrev pub zero_task : Task
zero_task = record {
  id = 0;
  user_id = 0;
  title = [];
  description = [];
  status = [];
  created_at = zero_time;
  updated_at = zero_time;
}

abbrev pub all_tasks : Bytes
all_tasks = bytes "all_tasks"

abbrev pub all_pages : Bytes
all_pages = bytes "tasks_paginated:*"

module _ {R J D S : Type 0} (env : Env R J D S) where
  abbrev pub task_key : Uuid → Bytes
  task_key id = bytes "task:" ++ env.uuid_string id

  abbrev pub user_key : Uuid → Bytes
  user_key user_id = bytes "user_tasks:" ++ env.uuid_string user_id

  abbrev pub user_pattern : Uuid → Bytes
  user_pattern user_id = bytes "user_tasks:" ++ env.uuid_string user_id ++ bytes ":*"

  abbrev pub page_key : (sort_by order page page_size : Bytes) → Bytes
  page_key sort_by order page page_size =
      bytes "tasks_paginated:"
      ++ sort_by
      ++ bytes ":"
      ++ order
      ++ bytes ":"
      ++ page
      ++ bytes ":"
      ++ page_size

  -- `var v T` at the address `p`, then `Get(key, &v)`.
  abbrev pub read : MultiLevelCache R D → Bytes → ℕ → D → Clock → MultiLevelCache R D × Option Error
  read c key p zero clock =
      MultiLevel.get env.client env.json (record c { heap = assign c.heap p zero }) key (to p) clock

  abbrev pub store : MultiLevelCache R D → Bytes → D → ℤ → Clock → MultiLevelCache R D
  store c key d ttl clock = (MultiLevel.set env.client env.json c key (plain d) ttl clock).0

  abbrev pub drop : MultiLevelCache R D → Bytes → Clock → MultiLevelCache R D
  drop c key clock = (MultiLevel.delete env.client c key clock).0

  abbrev pub drop_pattern : MultiLevelCache R D → Bytes → MultiLevelCache R D
  drop_pattern c pattern = (MultiLevel.delete_pattern env.client c pattern).0

  -- The lists of the owner, if the task was found.
  abbrev pub drop_owner : MultiLevelCache R D → Task × Option Bytes → MultiLevelCache R D
  drop_owner c (task, none) = drop_pattern c (user_pattern task.user_id)
  drop_owner c (task, some e) = c

  abbrev pub drop_lists : MultiLevelCache R D → Clock → MultiLevelCache R D
  drop_lists c clock = drop (drop_pattern c all_pages) all_tasks clock

  unfoldable pub create_task :
      CachedTaskService R D S
      → Task
      → (stored dropped : Clock) → CachedTaskService R D S × Option Bytes
  create_task s task stored dropped =
      let (db, err) = env.task_service.create_task s.db task in
      elim err [
        | some e ↦ (record s { db = db }, some e)
        | none ↦
            let cached =
              store s.cache (task_key task.id) (env.documents.of_task task) (minutes 30) stored in
            (
              record {
                cache = drop_lists (drop_pattern cached (user_pattern task.user_id)) dropped;
                db = db;
              },
              none,
            )
      ]

  unfoldable pub get_task_by_id :
      CachedTaskService R D S
      → ℕ
      → Uuid
      → (asked stored : Clock) → CachedTaskService R D S × Task × Option Bytes
  get_task_by_id s p id asked stored =
      let (c, err) = read s.cache (task_key id) p (env.documents.of_task zero_task) asked in
      elim err [
        | none ↦ (record s { cache = c }, env.documents.to_task (c.heap p), none)
        | some miss ↦
            let (task, e) = env.task_service.get_task_by_id s.db id in
            elim e [
              | some e' ↦ (record s { cache = c }, task, some e')
              | none ↦ (
                record s {
                  cache = store c (task_key id) (env.documents.of_task task) (minutes 30) stored;
                },
                task,
                none,
              )
            ]
      ]

  unfoldable pub get_tasks :
      CachedTaskService R D S
      → ℕ
      → (asked stored : Clock) → CachedTaskService R D S × List Task × Option Bytes
  get_tasks s p asked stored =
      let (c, err) = read s.cache all_tasks p (env.documents.of_tasks []) asked in
      elim err [
        | none ↦ (record s { cache = c }, env.documents.to_tasks (c.heap p), none)
        | some miss ↦
            let (tasks, e) = env.task_service.get_tasks s.db in
            elim e [
              | some e' ↦ (record s { cache = c }, tasks, some e')
              | none ↦ (
                record s {
                  cache = store c all_tasks (env.documents.of_tasks tasks) (minutes 10) stored;
                },
                tasks,
                none,
              )
            ]
      ]

  unfoldable pub get_tasks_paginated :
      CachedTaskService R D S
      → ℕ
      → (sort_by order page page_size : Bytes) → (asked stored : Clock)
      → CachedTaskService R D S × List Task × ℤ × Option Bytes
  get_tasks_paginated s p sort_by order page page_size asked stored =
      let key = page_key sort_by order page page_size in
      let (c, err) = read s.cache key p (env.documents.of_page [] (pos 0)) asked in
      elim err [
        | none ↦
            let (tasks, total) = env.documents.to_page (c.heap p) in
            (record s { cache = c }, tasks, total, none)
        | some miss ↦
            let (tasks, total, e) =
              env.task_service.get_tasks_paginated s.db sort_by order page page_size in
            elim e [
              | some e' ↦ (record s { cache = c }, tasks, total, some e')
              | none ↦ (
                record s {
                  cache = store c key (env.documents.of_page tasks total) (minutes 5) stored;
                },
                tasks,
                total,
                none,
              )
            ]
      ]

  unfoldable pub update_task :
      CachedTaskService R D S
      → Uuid
      → Task
      → (dropped lists_dropped : Clock) → CachedTaskService R D S × Option Bytes
  update_task s id updated dropped lists_dropped =
      let (db, err) = env.task_service.update_task s.db id updated in
      elim err [
        | some e ↦ (record s { db = db }, some e)
        | none ↦
            let c = drop s.cache (task_key id) dropped in
            let owner = env.task_service.get_task_by_id db id in
            (record { cache = drop_lists (drop_owner c owner) lists_dropped; db = db }, none)
      ]

  -- The owner is looked up before the task is gone.
  unfoldable pub delete_task :
      CachedTaskService R D S
      → Uuid
      → (dropped lists_dropped : Clock) → CachedTaskService R D S × Option Bytes
  delete_task s id dropped lists_dropped =
      let owner = env.task_service.get_task_by_id s.db id in
      let (db, err) = env.task_service.delete_task s.db id in
      elim err [
        | some e ↦ (record s { db = db }, some e)
        | none ↦
            let c = drop s.cache (task_key id) dropped in
            (record { cache = drop_lists (drop_owner c owner) lists_dropped; db = db }, none)
      ]

  unfoldable pub get_tasks_by_user :
      CachedTaskService R D S
      → ℕ
      → Uuid
      → (asked stored : Clock) → CachedTaskService R D S × List Task × Option Bytes
  get_tasks_by_user s p user_id asked stored =
      let (c, err) = read s.cache (user_key user_id) p (env.documents.of_tasks []) asked in
      elim err [
        | none ↦ (record s { cache = c }, env.documents.to_tasks (c.heap p), none)
        | some miss ↦
            let (tasks, e) = env.find_by_user s.db user_id in
            elim e [
              | some e' ↦ (record s { cache = c }, tasks, some e')
              | none ↦ (
                record s {
                  cache =
                      store c (user_key user_id) (env.documents.of_tasks tasks) (minutes 15) stored;
                },
                tasks,
                none,
              )
            ]
      ]
