-- ===== src/Services/Authorization/Policy.antt =====
-- Who is let in by authorization.go, described apart from the code.
use task_management_api.Shared.{◌≡◌, ◌≢◌, ◌⊎◌, none, some, List, Bytes, bytes}
use task_management_api.Shared.Int.{ℤ, pos, ◌<ℤ◌}
use task_management_api.Models.{Uuid, Task, UserAttribute}
use task_management_api.Services.Database.{answer, found}
use task_management_api.Services.Authorization.{AuthorizationRequest, Queries, user_attr}

module _ (q : Queries) (request : AuthorizationRequest) where
  -- A reader of the owner's department.
  abbrev pub Colleague : List UserAttribute → Task → Type 0
  Colleague attrs task =
      (department : Bytes) × (user_attr (bytes "department") attrs ≡ some department)
      × (q.first_department task.user_id ≡ found department)
      × (request.action ≡ bytes "read")

  -- Creation and listing are open; one task is for its owner, and for colleagues.
  abbrev pub TaskAllowed : List UserAttribute → Type 0
  TaskAllowed attrs =
      (request.action ≡ bytes "create")
      ⊎ (request.resource_id ≡ none)
      ⊎ ((id : Uuid) × (task : Task) × (request.resource_id ≡ some id)
          × (q.first_task id ≡ found task)
          × ((task.user_id ≡ request.user_id) ⊎ Colleague attrs task))

  -- Another's profile is neither updated nor deleted.
  abbrev pub UserAllowed : Type 0
  UserAllowed =
      (request.resource_id ≡ none)
      ⊎ (request.resource_id ≡ some request.user_id)
      ⊎ ((request.action ≢ bytes "update") × (request.action ≢ bytes "delete"))

  abbrev pub Allowed : List UserAttribute → Type 0
  Allowed attrs =
      ((request.resource ≡ bytes "task") × TaskAllowed attrs)
      ⊎ (((request.resource ≡ bytes "user") ⊎ (request.resource ≡ bytes "profile")) × UserAllowed)
      ⊎ ((request.resource ≢ bytes "task")
          × (request.resource ≢ bytes "user")
          × (request.resource ≢ bytes "profile"))

  -- A permission for the resource and action, and then the role of an admin or the policy.
  abbrev pub Granted : Type 0
  Granted =
      (n : ℤ) × (m : ℤ) × (attrs : List UserAttribute) × (q.count_permissions request.user_id
          request.resource request.action
        ≡ answer n)
      × (pos 0 <ℤ n)
      × (q.find_attributes request.user_id ≡ answer attrs)
      × (q.count_roles request.user_id (bytes "admin") ≡ answer m)
      × ((pos 0 <ℤ m) ⊎ Allowed attrs)
