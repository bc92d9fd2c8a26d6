-- ===== src/Middleware/Rbac/Passing.antt =====
-- Which requests the middleware of rbac_abac.go lets through.
use task_management_api.Shared.{
  true, ◌≡◌, refl, ◌⊎◌, inl, inr, ◌↔◌, Option, none, some, List, [], ◌∷◌, Bytes, bytes, bytes_eq,
  bytes_eq_iff, arith, Bool-cases, Option-cases, subst,
}
use task_management_api.Shared.Int.{ℤ, Time}
use task_management_api.Models.{Uuid}
use task_management_api.Services.Authorization.{AuthorizationRequest, Queries, is_authorized}
use task_management_api.Services.Authorization.Policy.{Granted}
use task_management_api.Services.Authorization.Grants.{is_authorized-Granted, granted_complete}
use task_management_api.Middleware.Authz.{Jwt}
use task_management_api.Middleware.Rbac.Subjects.{
  IsFrom, FirstOf, path_params, FirstOf-unique, abac_request-FirstOf, extracted_sound,
  extracted_complete,
}
use task_management_api.Middleware.Rbac.{
  Request, Extracted, extracted, no_user, passed, one_of, accepts, extract_user_from_token,
  rbac_middleware, abac_request, abac_middleware,
}

Extracted-cases :
    (x : Extracted) → ((user : Uuid) × (role : Bytes) × (x ≡ extracted user role)) ⊎ (x ≡ no_user)
Extracted-cases (extracted user role) = inl (user, role, refl)
Extracted-cases no_user = inr refl

-- The role is among those listed.
abbrev pub OneOf : Bytes → List Bytes → Type 0
OneOf role [] = ⊥
OneOf role (required ∷ rest) = (role ≡ required) ⊎ OneOf role rest

one_of_iff : (role : Bytes) (roles : List Bytes) → (one_of role roles ≡ true) ↔ OneOf role roles
unfolding one_of
one_of_iff role [] = ground arith
one_of_iff role (required ∷ rest) = ground (arith, one_of_iff role rest, bytes_eq_iff role required)

accepts_iff :
    (roles : List Bytes) (role : Bytes)
    → (accepts roles role ≡ true) ↔ ((roles ≡ []) ⊎ OneOf role roles)
unfolding accepts
accepts_iff [] role = (λ h. inl refl, λ h. refl)
accepts_iff (required ∷ rest) role = ground (arith, one_of_iff role (required ∷ rest))

-- The decision of the service, as a test.
decision_iff :
    (q : Queries) (r : AuthorizationRequest) (now : Time)
    → (((is_authorized q r now).1 ≡ none)
        × (bytes_eq (is_authorized q r now).0.decision (bytes "allowed") ≡ true))
      ↔ Granted q r
decision_iff q r now = (
  λ (e, b).
      (is_authorized-Granted q r now).0
        ((bytes_eq_iff ((is_authorized q r now).0.decision) (bytes "allowed")).0 b),
  λ g.
      let (d, e) = granted_complete q r now g in
      (e, (bytes_eq_iff ((is_authorized q r now).0.decision) (bytes "allowed")).1 d),
)

module _ {F : Type 0} (jwt : Jwt F) (uuid_from_string : Bytes → Option Uuid) where
  -- `RBACMiddleware` passes a request on for a user exactly if its token gives that user, with a role
  -- among the required ones unless none is required.
  pub rbac_middleware-OneOf :
      (required_roles : List Bytes) (request : Request) (user : Uuid)
      → (rbac_middleware jwt uuid_from_string required_roles request ≡ passed user) ↔ (
          (role : Bytes) × (extract_user_from_token jwt uuid_from_string request.authorization
            ≡ extracted user role)
          × ((required_roles ≡ []) ⊎ OneOf role required_roles))
  unfolding rbac_middleware
  rbac_middleware-OneOf required_roles request user =
      elim (Extracted-cases (extract_user_from_token jwt uuid_from_string request.authorization)) [
        | inr e ↦ (λ h. absurd (ground arith), λ (role, f, o). absurd (ground arith))
        | inl (u, role, e) ↦ (
          λ h. (
            role,
            ground (arith, accepts_iff required_roles role),
            ground (arith, accepts_iff required_roles role),
          ),
          λ (role', f, o). ground (arith, accepts_iff required_roles role'),
        )
      ]

  passed_user :
      (q : Queries) (resource action : Bytes) (request : Request) (now : Time) (user : Uuid)
      → abac_middleware jwt uuid_from_string q resource action request now ≡ passed user
      → (role : Bytes) × (started : ℤ) × (extract_user_from_token jwt uuid_from_string
            request.authorization
          ≡ extracted user role)
        × (request.request_start_time ≡ some started)
  unfolding abac_middleware
  passed_user q resource action request now user h =
      elim (Extracted-cases (extract_user_from_token jwt uuid_from_string request.authorization)) [
        | inr e ↦ absurd (ground arith)
        | inl (u, role, e) ↦ elim (Option-cases request.request_start_time) [
          | inl t ↦ absurd (ground arith)
          | inr (started, t) ↦
              let r = abac_request jwt uuid_from_string resource action request u in
              elim (Option-cases ((is_authorized q r now).1)) [
                | inr (x, w) ↦ absurd (ground arith)
                | inl w ↦
                    elim (Bool-cases
                      (bytes_eq (is_authorized q r now).0.decision (bytes "allowed"))) [
                        | inl b ↦ (role, started, ground arith, t)
                        | inr b ↦ absurd (ground arith)
                      ]
              ]
        ]
      ]

  known_user :
      (q : Queries) (resource action : Bytes) (request : Request) (now : Time) (user : Uuid)
      (role : Bytes) (started : ℤ)
      → extract_user_from_token jwt uuid_from_string request.authorization ≡ extracted user role
      → request.request_start_time ≡ some started
      → (abac_middleware jwt uuid_from_string q resource action request now ≡ passed user)
        ↔ Granted q (abac_request jwt uuid_from_string resource action request user)
  unfolding abac_middleware
  known_user q resource action request now user role started e t =
      let r = abac_request jwt uuid_from_string resource action request user in
      (
        λ h. (decision_iff q r now).0 (elim (Option-cases ((is_authorized q r now).1)) [
          | inr (x, w) ↦ absurd (ground arith)
          | inl w ↦
              elim (Bool-cases (bytes_eq (is_authorized q r now).0.decision (bytes "allowed"))) [
                | inl b ↦ (w, b)
                | inr b ↦ absurd (ground arith)
              ]
        ]),
        λ g. let (w, b) = (decision_iff q r now).1 g in ground arith,
      )

  -- `ABACMiddleware` passes a request on for a user exactly if its header is a bearer token that parses
  -- with the key in the code and names the user, or is not valid and the user is the nil one; a start
  -- time was set; and the authorization service grants this user the resource and the action, for the
  -- first of `task_id`, `user_id` and `id` in the path that is there and a UUID, if any is.
  pub abac_middleware-Granted :
      (q : Queries) (resource action : Bytes) (request : Request) (now : Time) (user : Uuid)
      → (abac_middleware jwt uuid_from_string q resource action request now ≡ passed user) ↔ (
          (started : ℤ) × (resource_id : Option Uuid) × IsFrom jwt uuid_from_string
            request.authorization user
          × (request.request_start_time ≡ some started)
          × FirstOf uuid_from_string request path_params resource_id
          × Granted q (record {
            user_id = user;
            resource = resource;
            action = action;
            resource_id = resource_id;
            context = some request.context;
            ip_address = request.client_ip;
            user_agent = request.user_agent;
            request_id = request.request_id;
          }))
  unfolding abac_request
  abac_middleware-Granted q resource action request now user =
      let asked : AuthorizationRequest =
        abac_request jwt uuid_from_string resource action request user in
      let first : FirstOf uuid_from_string request path_params asked.resource_id =
        abac_request-FirstOf jwt uuid_from_string request resource action user in
      (
        λ h.
            let (role, started, e, t) = passed_user q resource action request now user h in
            (
              started,
              asked.resource_id,
              extracted_sound jwt uuid_from_string request.authorization user role e,
              t,
              first,
              (known_user q resource action request now user role started e t).0 h,
            ),
        λ (started, resource_id, f, t, p, g).
            let (role, e) = extracted_complete jwt uuid_from_string request.authorization user f in
            (known_user q resource action request now user role started e t).1 (
              subst (λ (x : Option Uuid). Granted q (record asked { resource_id = x }))
                (FirstOf-unique uuid_from_string request path_params resource_id asked.resource_id p
                  first)
                g),
      )
