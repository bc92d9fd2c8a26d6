-- ===== src/Middleware/Rbac/Tests.antt =====
-- rbac_abac.go at a concrete request: the token "good" names user 1 with the role "user".
use task_management_api.Shared.{
  ◌≡◌, ◌≢◌, ◌↔◌, refl, ◌⊎◌, true, Option, none, some, [], ◌∷◌, Bytes, bytes, bytes_eq,
  if◌then◌else◌,
}
use task_management_api.Shared.Int.{ℤ, pos}
use task_management_api.Models.{Uuid}
use task_management_api.Services.Database.{answer, not_found}
use task_management_api.Services.Authorization.{Queries}
use task_management_api.Services.Authorization.Policy.{Granted}
use task_management_api.Middleware.Authz.{text, MapClaims, Jwt, parsed, parse_error}
use task_management_api.Middleware.Rbac.{Request, passed, aborted, rbac_middleware, abac_middleware}
use task_management_api.Middleware.Rbac.{a_uuid, a_string, resource_ownership_middleware}
use task_management_api.Middleware.Rbac.Ownership.{Names, resource_ownership_iff}
use task_management_api.Middleware.Rbac.Subjects.{IsFrom, FirstOf, path_params}
use task_management_api.Middleware.Rbac.Passing.{abac_middleware-Granted}

abbrev claims : MapClaims ℤ
claims key =
    if bytes_eq key (bytes "user_id")
    then some (text (bytes "u1"))
    else if bytes_eq key (bytes "role")
    then some (text (bytes "user"))
    else none

abbrev jwt : Jwt ℤ
jwt = record {
  parse = λ key_func token.
      if bytes_eq token (bytes "good")
      then parsed (record { valid = true; claims = some claims })
      else parse_error;
  to_int64 = λ f. f;
}

abbrev uuid_from_string : Bytes → Option Uuid
uuid_from_string s = if bytes_eq s (bytes "u1") then some 1 else none

abbrev queries : Queries
queries = record {
  count_roles = λ user_id role_name. answer (pos 0);
  count_permissions = λ user_id resource action. answer (pos 1);
  find_attributes = λ user_id. answer [];
  first_task = λ id. not_found;
  first_department = λ id. not_found;
}

abbrev request : Request
request = record {
  authorization = bytes "Bearer good";
  param = λ name. [];
  request_start_time = some (pos 5);
  context = answer [];
  client_ip = [];
  user_agent = [];
  request_id = [];
}

no_admin : rbac_middleware jwt uuid_from_string (bytes "admin" ∷ []) request ≡ aborted 403
unfolding rbac_middleware bytes_eq
no_admin = refl

abac_middleware-Granted_example :
    (abac_middleware jwt uuid_from_string queries (bytes "task") (bytes "read") request (pos 9)
      ≡ passed 1)
    ↔ ((started : ℤ) × (resource_id : Option Uuid) × IsFrom jwt uuid_from_string
          request.authorization 1
        × (request.request_start_time ≡ some started)
        × FirstOf uuid_from_string request path_params resource_id
        × Granted queries (record {
          user_id = 1;
          resource = bytes "task";
          action = bytes "read";
          resource_id = resource_id;
          context = some request.context;
          ip_address = request.client_ip;
          user_agent = request.user_agent;
          request_id = request.request_id;
        }))
abac_middleware-Granted_example =
    abac_middleware-Granted jwt uuid_from_string queries (bytes "task") (bytes "read") request
      (pos 9) 1

abbrev own_profile : Request
own_profile = record request {
  param = λ name. if bytes_eq name (bytes "id") then bytes "u1" else [];
}

resource_ownership_iff_example :
    (resource_ownership_middleware uuid_from_string
        (bytes "profile")
        (a_uuid 1)
        (a_string (bytes "user"))
        own_profile
      ≡ passed 1)
    ↔ ((a_string (bytes "user") ≡ a_string (bytes "admin"))
        ⊎ ((resource : Uuid) × Names uuid_from_string (bytes "profile") own_profile resource
            × (((bytes "profile" ≢ bytes "user") × (bytes "profile" ≢ bytes "profile"))
                ⊎ (resource ≡ 1))))
resource_ownership_iff_example =
    resource_ownership_iff uuid_from_string (bytes "profile") 1 (a_string (bytes "user"))
      own_profile
