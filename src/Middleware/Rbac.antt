-- ===== src/Middleware/Rbac.antt =====
-- backend/internal/middleware/rbac_abac.go, over `jwt.Parse`, `uuid.FromString` and the queries of the
-- authorization service. The log of a decision, which another goroutine writes, is left out.
pub mod Subjects
pub mod Passing
pub mod Ownership
mod Tests
use task_management_api.Shared.{
  ℕ, Bool, true, false, Option, none, some, List, [], ◌∷◌, ◌&&◌, ◌||◌, not, ◌==◌, Bytes, bytes,
  bytes_eq, drop, if◌then◌else◌,
}
use task_management_api.Shared.Int.{ℤ, Time}
use task_management_api.Models.{Uuid}
use task_management_api.Services.Database.{Answer, answer, failure}
use task_management_api.Services.Authorization.{
  AuthorizationRequest, Queries, has_permission, is_authorized,
}
use task_management_api.Middleware.Authz.{
  Jwt, parsed, parse_error, has_prefix, as_text, text_or_empty,
}

-- What the middleware reads of a request; `context` is what `json.Marshal` makes of the map that
-- `buildRequestContext` builds.
pub record Request : Type 0 where
  pub authorization : Bytes
  pub param : Bytes → Bytes
  pub request_start_time : Option ℤ
  pub context : Answer Bytes
  pub client_ip : Bytes
  pub user_agent : Bytes
  pub request_id : Bytes

-- The user and role of a token, or an error.
pub data Extracted : Type 0 where
  extracted : Uuid → Bytes → Extracted
  no_user : Extracted

-- The next handler is called, for a user; or the request is aborted; or the middleware panics.
pub data Passage : Type 0 where
  passed : Uuid → Passage
  aborted : (status : ℕ) → Passage
  panicked : Passage

abbrev pub nil_uuid : Uuid
nil_uuid = 0

unfoldable pub one_of : Bytes → List Bytes → Bool
unfolding bytes_eq
one_of role [] = false
one_of role (required ∷ rest) = bytes_eq role required || one_of role rest

-- `if len(requiredRoles) > 0`
unfoldable pub accepts : List Bytes → Bytes → Bool
unfolding one_of
accepts [] role = true
accepts (required ∷ rest) role = one_of role (required ∷ rest)

module _ {F : Type 0} (jwt : Jwt F) (uuid_from_string : Bytes → Option Uuid) where
  -- The key function takes every signing method. A token that parses and is not valid comes with a
  -- nil error, and so counts as the nil user.
  unfoldable pub extract_user_from_token : Bytes → Extracted
  unfolding has_prefix
  extract_user_from_token auth_header =
      if not (has_prefix auth_header (bytes "Bearer "))
      then no_user
      else elim (jwt.parse (λ is_hmac. some (bytes "default_secret")) (drop 7 auth_header)) [
        | parse_error ↦ no_user
        | parsed token ↦ if not token.valid then extracted nil_uuid [] else elim token.claims [
          | none ↦ no_user
          | some claims ↦ elim (as_text (claims (bytes "user_id"))) [
            | none ↦ no_user
            | some user_id ↦ elim (uuid_from_string user_id) [
              | none ↦ no_user
              | some user ↦ extracted user (text_or_empty (as_text (claims (bytes "role"))))
            ]
          ]
        ]
      ]

  unfoldable pub rbac_middleware : List Bytes → Request → Passage
  unfolding extract_user_from_token accepts
  rbac_middleware required_roles request = elim (extract_user_from_token request.authorization) [
    | no_user ↦ aborted 401
    | extracted user role ↦ if accepts required_roles role then passed user else aborted 403
  ]

  unfoldable pub permission_middleware : Queries → (resource action : Bytes) → Request → Passage
  unfolding extract_user_from_token
  permission_middleware q resource action request =
      elim (extract_user_from_token request.authorization) [
        | no_user ↦ aborted 401
        | extracted user role ↦ elim (has_permission q user resource action) [
          | failure e ↦ aborted 500
          | answer permitted ↦ if permitted then passed user else aborted 403
        ]
      ]

  -- A parameter of the path, if it is there and a UUID, or what was found before.
  unfoldable pub resource_param : Request → Bytes → Option Uuid → Option Uuid
  unfolding bytes_eq
  resource_param request name found =
      if bytes_eq (request.param name) []
      then found
      else elim (uuid_from_string (request.param name)) [ none ↦ found | some id ↦ some id ]

  unfoldable pub abac_request : (resource action : Bytes) → Request → Uuid → AuthorizationRequest
  unfolding resource_param
  abac_request resource action request user = record {
    user_id = user;
    resource = resource;
    action = action;
    resource_id =
        resource_param request (bytes "task_id")
          (resource_param request (bytes "user_id") (resource_param request (bytes "id") none));
    context = some request.context;
    ip_address = request.client_ip;
    user_agent = request.user_agent;
    request_id = request.request_id;
  }

  -- `buildRequestContext` asserts the type of a start time that may be missing.
  unfoldable pub abac_middleware : Queries → (resource action : Bytes) → Request → Time → Passage
  unfolding extract_user_from_token abac_request bytes_eq
  abac_middleware q resource action request now =
      elim (extract_user_from_token request.authorization) [
        | no_user ↦ aborted 401
        | extracted user role ↦ elim request.request_start_time [
          | none ↦ panicked
          | some started ↦
              let (decision, err) =
                is_authorized q (abac_request resource action request user) now in
              elim err [
                | some e ↦ aborted 500
                | none ↦
                    if bytes_eq decision.decision (bytes "allowed")
                    then passed user
                    else aborted 403
              ]
        ]
      ]

-- What `c.Get` finds: nothing, a UUID or a string, or a value of another type.
pub data Stored : Type 0 where
  absent : Stored
  a_uuid : Uuid → Stored
  a_string : Bytes → Stored
  another : Stored

abbrev pub is_admin : Stored → Bool
unfolding bytes_eq
is_admin absent = false
is_admin (a_uuid id) = false
is_admin (a_string role) = bytes_eq role (bytes "admin")
is_admin another = false

module _ (uuid_from_string : Bytes → Option Uuid) where
  -- The UUID of the path: `none` is an error, and no parameter leaves the nil UUID.
  unfoldable pub owned_resource : (resource_type : Bytes) → Request → Option Uuid
  unfolding bytes_eq
  owned_resource resource_type request =
      if not (bytes_eq (request.param (bytes "user_id")) [])
        && bytes_eq resource_type (bytes "user")
      then uuid_from_string (request.param (bytes "user_id"))
      else if not (bytes_eq (request.param (bytes "id")) [])
      then uuid_from_string (request.param (bytes "id"))
      else some nil_uuid

  -- `stored_user` and `stored_role` are what earlier middleware set.
  unfoldable pub resource_ownership_middleware :
      (resource_type : Bytes) → (stored_user stored_role : Stored) → Request → Passage
  unfolding owned_resource
  resource_ownership_middleware resource_type stored_user stored_role request = elim stored_user [
    | absent ↦ aborted 401
    | a_string s ↦ aborted 401
    | another ↦ aborted 401
    | a_uuid user ↦
        if is_admin stored_role then passed user else elim (owned_resource resource_type request) [
          | none ↦ aborted 400
          | some resource ↦
              if (bytes_eq resource_type (bytes "user") || bytes_eq resource_type (bytes "profile"))
                && not (resource == user)
              then aborted 403
              else passed user
        ]
  ]
