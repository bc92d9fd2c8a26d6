-- ===== src/Services/Tasks.antt =====
-- `TaskServiceImpl` of backend/internal/services/tasks.go, over the queries that it makes of the
-- database, which are parameters, as is `strconv.Atoi`.
pub mod Pages
mod Tests
use task_management_api.Shared.{
  Bool, true, false, Option, none, some, List, ◌++◌, ◌&&◌, ◌||◌, not, Bytes, bytes, bytes_eq,
  if◌then◌else◌,
}
use task_management_api.Shared.Int.{ℤ, pos, ltb_ℤ, leb_ℤ, sub_int64, mul_int64}
use task_management_api.Models.{Uuid, Task}
use task_management_api.Services.CachedTasks.{TaskService}

-- What `Order`, `Offset` and `Limit` are given.
pub record PageQuery : Type 0 where
  pub order : Bytes
  pub offset : ℤ
  pub limit : ℤ

-- The statements; `count` is what `Count` leaves in `total`, whose error the code ignores.
pub record TaskTable (S : Type 0) : Type 0 where
  pub create : S → Task → S × Option Bytes
  pub first : S → Uuid → Task × Option Bytes
  pub find : S → List Task × Option Bytes
  pub count : S → ℤ
  pub find_page : S → PageQuery → List Task × Option Bytes
  pub updates : S → Uuid → Task → S × Option Bytes
  pub delete : S → Uuid → S × Option Bytes

pub allowed_sort : Bytes → Bool
unfolding bytes_eq
allowed_sort sort_by =
    bytes_eq sort_by (bytes "created_at")
    || bytes_eq sort_by (bytes "updated_at")
    || bytes_eq sort_by (bytes "title")

-- A positive number, or else the default.
pub page_number : Option ℤ → ℤ
page_number none = pos 1
page_number (some v) = if ltb_ℤ (pos 0) v then v else pos 1

pub page_limit : Option ℤ → ℤ
page_limit none = pos 10
page_limit (some v) = if ltb_ℤ (pos 0) v && leb_ℤ v (pos 100) then v else pos 10

module _ (atoi : Bytes → Option ℤ) where
  unfoldable pub page_query : (sort_by order page page_size : Bytes) → PageQuery
  unfolding allowed_sort page_number page_limit sub_int64 mul_int64
  page_query sort_by order page page_size =
      let sort = if allowed_sort sort_by then sort_by else bytes "created_at" in
      let direction =
        if not (bytes_eq order (bytes "asc")) && not (bytes_eq order (bytes "desc"))
        then bytes "desc"
        else order in
      let p = page_number (atoi page) in
      let ps = page_limit (atoi page_size) in
      record {
        order = sort ++ bytes " " ++ direction;
        offset = mul_int64 (sub_int64 p (pos 1)) ps;
        limit = ps;
      }

  unfoldable pub task_service_impl : {S : Type 0} → TaskTable S → TaskService S
  unfolding page_query
  task_service_impl table = record {
    create_task = λ db task. table.create db task;
    get_task_by_id = λ db id. table.first db id;
    get_tasks = λ db. table.find db;
    get_tasks_paginated = λ db sort_by order page page_size.
        let (tasks, err) = table.find_page db (page_query sort_by order page page_size) in
        (tasks, table.count db, err);
    update_task = λ db id task. table.updates db id task;
    delete_task = λ db id. table.delete db id;
  }
