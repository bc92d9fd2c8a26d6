-- ===== src/Services/CachedTasks/Tests.antt =====
-- The cached task service at concrete inputs: the database is one title, documents are their own
-- encodings, and a UUID prints as one letter.
use task_management_api.Shared.{
  ℕ, ◌+◌, ◌≡◌, refl, none, some, List, [], ◌∷◌, Bytes, bytes, bytes_eq,
}
use task_management_api.Shared.Int.{pos}
use task_management_api.Cache.SyncMap.{load}
use task_management_api.Cache.Values.{plain, Json, encoded}
use task_management_api.Cache.Redis.{Client, reply}
use task_management_api.Cache.Breaker.{new_circuit_breaker, default_circuit_breaker_config}
use task_management_api.Cache.Metrics.{new_cache_metrics}
use task_management_api.Cache.MultiLevel.{Clock}
use task_management_api.Models.{Task}
use task_management_api.Services.CachedTasks.{
  TaskService, Documents, Env, CachedTaskService, zero_task, update_task, get_tasks_by_user,
}
use task_management_api.Services.CachedTasks.Fresh.{Fresh, update_task-Fresh}
use task_management_api.Services.CachedTasks.Stale.{user_list_outlives}

-- A document is a list of titles.
abbrev Titles : Type 0
Titles = List Bytes

abbrev titled : Bytes → Task
titled title = record zero_task { id = 9; user_id = 2; title = title }

abbrev title_of : List Task → Titles
title_of [] = []
title_of (task ∷ tasks) = task.title ∷ title_of tasks

abbrev tasks_of : Titles → List Task
tasks_of [] = []
tasks_of (title ∷ titles) = titled title ∷ tasks_of titles

abbrev first_of : Titles → Task
first_of [] = zero_task
first_of (title ∷ titles) = titled title

abbrev one_task : TaskService Bytes
one_task = record {
  create_task = λ db task. (task.title, none);
  get_task_by_id = λ db id. (titled db, none);
  get_tasks = λ db. (titled db ∷ [], none);
  get_tasks_paginated = λ db sort_by order page page_size. (titled db ∷ [], pos 1, none);
  update_task = λ db id task. (task.title, none);
  delete_task = λ db id. ([], none);
}

abbrev server : Client ℕ Titles
server = record {
  set = λ r k j ttl. (r, none);
  get = λ r k. (r, reply none);
  del = λ r ks. (r, none);
  keys = λ r p. (r, reply []);
  exists = λ r k. (r, reply (pos 0));
  exec = λ r cs. (r, none);
  s_members = λ r k. (r, reply []);
  ping = λ r. (r, none);
}

abbrev json : Json Titles Titles
json = record {
  marshal = λ d. encoded d;
  unmarshal = λ j d. (j, none);
  invalid_unmarshal = λ dest. bytes "json: invalid";
}

abbrev documents : Documents Titles
documents = record {
  of_task = λ task. task.title ∷ [];
  of_tasks = λ tasks. title_of tasks;
  of_page = λ tasks total. title_of tasks;
  to_task = λ d. first_of d;
  to_tasks = λ d. tasks_of d;
  to_page = λ d. (tasks_of d, pos 1);
}

abbrev env : Env ℕ Titles Titles Bytes
env = record {
  client = server;
  json = json;
  documents = documents;
  task_service = one_task;
  find_by_user = λ db user_id. (titled db ∷ [], none);
  uuid_string = λ id. (id + 97) ∷ [];
}

abbrev service : CachedTaskService ℕ Titles Bytes
service = record {
  cache = record {
    l1 = record {
      store =
          (bytes "user_tasks:c", record { value = plain (bytes "old" ∷ []); expiration = pos 100 })
          ∷ [];
    };
    l2 = none;
    metrics = new_cache_metrics (pos 0);
    circuit_breaker = new_circuit_breaker (some default_circuit_breaker_config);
    heap = λ p. [];
  };
  db = bytes "old";
}

abbrev at_time : ℕ → Clock
at_time n = record { entered = pos n; asked = pos n; refilled = pos n; done = pos n }

update_task-Fresh_example :
    Fresh env
      (update_task env service 9 (titled (bytes "new")) (at_time 5) (at_time 6)).0
      9
      1
      (at_time 7)
      (at_time 8)
      (bytes "title")
      (bytes "asc")
      (bytes "1")
      (bytes "10")
update_task-Fresh_example =
    update_task-Fresh env service 9 (titled (bytes "new")) (at_time 5) (at_time 6) 1 (at_time 7)
      (at_time 8) (bytes "title") (bytes "asc") (bytes "1") (bytes "10") refl (tt, tt) refl

user_list_outlives_example :
    let (s', _) = update_task env service 9 (titled (bytes "new")) (at_time 5) (at_time 6) in
    let (_, tasks, err) = get_tasks_by_user env s' 1 2 (at_time 7) (at_time 8) in
    (tasks ≡ titled (bytes "old") ∷ []) × (err ≡ none)
unfolding load bytes_eq
user_list_outlives_example =
    user_list_outlives env (λ v w. refl) service 9 2 (titled (bytes "new")) (at_time 5) (at_time 6)
      1 (at_time 7) (at_time 8) (bytes "old" ∷ []) (bytes "old" ∷ []) (bytes "old" ∷ []) refl
      (tt, tt) refl refl refl refl
