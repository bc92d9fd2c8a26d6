-- ===== src/Services/Authorization/Tests.antt =====
-- Authorization at concrete inputs: a colleague reads a task.
use task_management_api.Shared.{◌≡◌, refl, ◌↔◌, none, some, [], ◌∷◌, bytes, bytes_eq}
use task_management_api.Shared.Int.{pos}
use task_management_api.Models.{Task, UserAttribute}
use task_management_api.Services.Database.{answer, found}
use task_management_api.Services.Authorization.{AuthorizationRequest, Queries, is_authorized}
use task_management_api.Services.Authorization.Policy.{Granted}
use task_management_api.Services.Authorization.Grants.{is_authorized-Granted}

abbrev department : UserAttribute
department = record {
  id = 5;
  user_id = 1;
  name = bytes "department";
  value = bytes "ops";
  data_type = bytes "string";
  source = [];
  expires_at = none;
  created_at = pos 0;
  updated_at = pos 0;
  deleted_at = none;
}

abbrev task : Task
task = record {
  id = 9;
  user_id = 2;
  title = bytes "t";
  description = [];
  status = bytes "pending";
  created_at = pos 0;
  updated_at = pos 0;
}

abbrev queries : Queries
queries = record {
  count_roles = λ user_id role_name. answer (pos 0);
  count_permissions = λ user_id resource action. answer (pos 1);
  find_attributes = λ user_id. answer (department ∷ []);
  first_task = λ id. found (task);
  first_department = λ id. found (bytes "ops");
}

abbrev request : AuthorizationRequest
request = record {
  user_id = 1;
  resource = bytes "task";
  action = bytes "read";
  resource_id = some 9;
  context = none;
  ip_address = [];
  user_agent = [];
  request_id = [];
}

read_allowed : (is_authorized queries request (pos 0)).0.decision ≡ bytes "allowed"
unfolding is_authorized bytes_eq
read_allowed = refl

is_authorized-Granted_example :
    ((is_authorized queries request (pos 0)).0.decision ≡ bytes "allowed") ↔ Granted queries request
is_authorized-Granted_example = is_authorized-Granted queries request (pos 0)
