-- ===== src/Services/Authorization.antt =====
-- backend/internal/services/authorization.go: role-based permissions, then attribute-based policies.
-- Texts are compared as the code compares them; a context is what `json.Marshal` makes of it.
pub mod Policy
pub mod Branches
pub mod Grants
pub mod Roles
pub mod Revoked
pub mod Writes
mod RoleTests
mod Tests
use task_management_api.Shared.{
  ℕ, Bool, true, false, Option, none, some, List, [], ◌∷◌, ◌++◌, ◌&&◌, ◌||◌, not, Bytes, bytes,
  bytes_eq, ◌==◌, if◌then◌else◌,
}
use task_management_api.Shared.Int.{ℤ, pos, Time, ltb_ℤ}
use task_management_api.Models.{Uuid, Task, UserAttribute}
use task_management_api.Services.Database.{Answer, answer, failure, Found, found, not_found, broken}

pub record AuthorizationRequest : Type 0 where
  pub user_id : Uuid
  pub resource : Bytes
  pub action : Bytes
  pub resource_id : Option Uuid
  pub context : Option (Answer Bytes)
  pub ip_address : Bytes
  pub user_agent : Bytes
  pub request_id : Bytes

pub record AuthorizationDecision : Type 0 where
  pub user_id : Uuid
  pub resource : Bytes
  pub action : Bytes
  pub resource_id : Option Uuid
  pub decision : Bytes
  pub reason : Bytes
  pub policy_type : Bytes
  pub context : Option (Answer Bytes)
  pub timestamp : Time
  pub ip_address : Bytes
  pub user_agent : Bytes
  pub request_id : Bytes

-- The queries of the decision.
pub record Queries : Type 0 where
  pub count_roles : (user_id : Uuid) → (role_name : Bytes) → Answer ℤ
  pub count_permissions : (user_id : Uuid) → (resource action : Bytes) → Answer ℤ
  pub find_attributes : (user_id : Uuid) → Answer (List UserAttribute)
  pub first_task : (id : Uuid) → Found Task
  pub first_department : (id : Uuid) → Found Bytes

-- A test, the reason for its outcome, and the error.
pub record Verdict : Type 0 where
  pub allowed : Bool
  pub reason : Bytes
  pub error : Option Bytes

abbrev allow : Bytes → Verdict
allow reason = record { allowed = true; reason = reason; error = none }

abbrev deny : Bytes → Verdict
deny reason = record { allowed = false; reason = reason; error = none }

abbrev fail : Bytes → Bytes → Verdict
fail reason e = record { allowed = false; reason = reason; error = some e }

-- `userAttrMap[key]`: of several attributes of the name the last one counts.
pub user_attr : Bytes → List UserAttribute → Option Bytes
user_attr key [] = none
user_attr key (attr ∷ attrs) = elim (user_attr key attrs) [
  | some value ↦ some value
  | none ↦ if bytes_eq attr.name key then some attr.value else none
]

module _ (q : Queries) where
  pub has_role : Uuid → Bytes → Answer Bool
  has_role user_id role_name = elim (q.count_roles user_id role_name) [
    | answer n ↦ answer (ltb_ℤ (pos 0) n)
    | failure e ↦ failure e
  ]

  pub has_permission : Uuid → Bytes → Bytes → Answer Bool
  has_permission user_id resource action = elim (q.count_permissions user_id resource action) [
    | answer n ↦ answer (ltb_ℤ (pos 0) n)
    | failure e ↦ failure e
  ]

  -- A member of the owner's department may read the task; a failed query for it denies.
  pub same_department_read : AuthorizationRequest → List UserAttribute → Task → Bool
  unfolding user_attr
  same_department_read request attrs task = elim (user_attr (bytes "department") attrs) [
    | none ↦ false
    | some department ↦ elim (q.first_department task.user_id) [
      | found owner ↦ bytes_eq owner department && bytes_eq request.action (bytes "read")
      | not_found ↦ false
      | broken e ↦ false
    ]
  ]

  pub evaluate_task_abac_policy : AuthorizationRequest → List UserAttribute → Verdict
  unfolding same_department_read
  evaluate_task_abac_policy request attrs =
      let by_id = λ (id : Uuid). elim (q.first_task id) as (λ _. Verdict) [
        | not_found ↦ deny (bytes "Task not found")
        | broken e ↦ fail (bytes "Failed to retrieve task") e
        | found task ↦
            if task.user_id == request.user_id
            then allow (bytes "Task owner has access")
            else if same_department_read request attrs task
            then allow (bytes "Department member can view task")
            else deny (bytes "User can only access own tasks")
      ] in
      if bytes_eq request.action (bytes "create")
      then allow (bytes "Task creation allowed")
      else elim request.resource_id [
        | some id ↦ by_id id
        | none ↦ allow (bytes "Task listing allowed")
      ]

pub evaluate_user_abac_policy : AuthorizationRequest → Verdict
evaluate_user_abac_policy request = elim request.resource_id [
  | none ↦ allow (bytes "User listing allowed")
  | some id ↦
      if id == request.user_id
      then allow (bytes "User can access own profile")
      else if bytes_eq request.action (bytes "update") || bytes_eq request.action (bytes "delete")
      then deny (bytes "Only admins can modify other users")
      else if bytes_eq request.action (bytes "read")
      then allow (bytes "User can view other profiles")
      else allow (bytes "User listing allowed")
]

abbrev initial_decision : AuthorizationRequest → Time → AuthorizationDecision
initial_decision request now = record {
  user_id = request.user_id;
  resource = request.resource;
  action = request.action;
  resource_id = request.resource_id;
  decision = bytes "denied";
  reason = [];
  policy_type = bytes "combined";
  context = request.context;
  timestamp = now;
  ip_address = request.ip_address;
  user_agent = request.user_agent;
  request_id = request.request_id;
}

module _ (q : Queries) where
  -- The `switch` over the resource.
  pub evaluate_resource : AuthorizationRequest → List UserAttribute → Verdict
  unfolding evaluate_task_abac_policy evaluate_user_abac_policy
  evaluate_resource request attrs =
      if bytes_eq request.resource (bytes "task")
      then evaluate_task_abac_policy q request attrs
      else if bytes_eq request.resource (bytes "user")
          || bytes_eq request.resource (bytes "profile")
      then evaluate_user_abac_policy request
      else allow (bytes "No specific ABAC policy, allowing based on RBAC")

  pub evaluate_abac_policies : AuthorizationRequest → Verdict
  unfolding has_role evaluate_resource
  evaluate_abac_policies request = elim (q.find_attributes request.user_id) [
    | failure e ↦ fail (bytes "Failed to retrieve user attributes") e
    | answer attrs ↦ elim (has_role q request.user_id (bytes "admin")) [
      | failure e ↦ fail (bytes "Failed to check admin role") e
      | answer is_admin ↦
          if is_admin
          then allow (bytes "Admin has full access")
          else evaluate_resource request attrs
    ]
  ]

  pub is_authorized : AuthorizationRequest → Time → AuthorizationDecision × Option Bytes
  unfolding has_permission evaluate_abac_policies
  is_authorized request now =
      let decision = initial_decision request now in
      elim (has_permission q request.user_id request.resource request.action) [
        | failure e ↦ (record decision { reason = bytes "RBAC check failed: " ++ e }, some e)
        | answer permitted ↦
            let verdict = evaluate_abac_policies request in
            let judged : AuthorizationDecision × Option Bytes = elim verdict.error [
              | some e ↦
                  (record decision { reason = bytes "ABAC evaluation failed: " ++ e }, some e)
              | none ↦
                  if verdict.allowed
                  then (
                    record decision {
                      decision = bytes "allowed";
                      reason = bytes "Access granted by RBAC and ABAC policies";
                    },
                    none,
                  )
                  else (
                    record decision { reason = verdict.reason; policy_type = bytes "abac" },
                    none,
                  )
            ] in
            if permitted then judged else (
              record decision {
                reason = bytes "User lacks required RBAC permission";
                policy_type = bytes "rbac";
              },
              none,
            )
      ]
