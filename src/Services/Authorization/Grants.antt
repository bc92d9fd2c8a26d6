-- ===== src/Services/Authorization/Grants.antt =====
-- `IsAuthorized` of authorization.go against the description.
use task_management_api.Shared.{
  true, false, ◌≡◌, ◌≢◌, ◌⊎◌, inl, inr, ◌↔◌, none, some, List, Bytes, bytes, bytes_eq_iff, arith,
  Bool-cases, Option-cases,
}
use task_management_api.Shared.Int.{ℤ, pos, ◌<ℤ◌, ltb_ℤ, Time}
use task_management_api.Models.{UserAttribute}
use task_management_api.Services.Database.{answer, Answer-cases}
use task_management_api.Services.Authorization.{
  AuthorizationRequest, Queries, has_role, has_permission, evaluate_user_abac_policy,
  evaluate_resource, evaluate_abac_policies, is_authorized,
}
use task_management_api.Services.Authorization.Policy.{Allowed, Granted}
use task_management_api.Services.Authorization.Branches.{task_sound, task_complete, user_iff}

module _ (q : Queries) (request : AuthorizationRequest) where
  user_no_error : (evaluate_user_abac_policy request).error ≡ none
  unfolding evaluate_user_abac_policy
  user_no_error = ground arith

  resource_cases :
      (request.resource ≡ bytes "task")
      ⊎ ((request.resource ≡ bytes "user") ⊎ (request.resource ≡ bytes "profile"))
      ⊎ ((request.resource ≢ bytes "task")
          × (request.resource ≢ bytes "user")
          × (request.resource ≢ bytes "profile"))
  resource_cases = ground (
    arith,
    bytes_eq_iff request.resource (bytes "task"),
    bytes_eq_iff request.resource (bytes "user"),
    bytes_eq_iff request.resource (bytes "profile"),
  )

  resource_sound :
      (attrs : List UserAttribute)
      → (evaluate_resource q request attrs).allowed ≡ true
      → Allowed q request attrs
  unfolding evaluate_resource
  resource_sound attrs h = elim resource_cases [
    | inl t ↦ inl (
      t,
      task_sound q request attrs (ground (arith, bytes_eq_iff request.resource (bytes "task"))),
    )
    | inr (inl u) ↦ inr (
        inl (
          u,
          (user_iff q request).0 (
              ground (
                arith,
                bytes_eq_iff request.resource (bytes "task"),
                bytes_eq_iff request.resource (bytes "user"),
                bytes_eq_iff request.resource (bytes "profile"),
              )),
        ))
    | inr (inr n) ↦ inr (inr n)
  ]

  resource_complete :
      (attrs : List UserAttribute)
      → Allowed q request attrs
      → ((evaluate_resource q request attrs).allowed ≡ true)
        × ((evaluate_resource q request attrs).error ≡ none)
  unfolding evaluate_resource
  resource_complete attrs (inl (t, a)) =
      ground (arith, bytes_eq_iff request.resource (bytes "task"), task_complete q request attrs a)
  resource_complete attrs (inr (inl (u, a))) = ground (
    arith,
    bytes_eq_iff request.resource (bytes "task"),
    bytes_eq_iff request.resource (bytes "user"),
    bytes_eq_iff request.resource (bytes "profile"),
    (user_iff q request).1 a,
    user_no_error,
  )
  resource_complete attrs (inr (inr (t, u, p))) = ground (
    arith,
    bytes_eq_iff request.resource (bytes "task"),
    bytes_eq_iff request.resource (bytes "user"),
    bytes_eq_iff request.resource (bytes "profile"),
  )

  policies_sound :
      (evaluate_abac_policies q request).allowed ≡ true
      → (m : ℤ) × (attrs : List UserAttribute) × (q.find_attributes request.user_id ≡ answer attrs)
        × (q.count_roles request.user_id (bytes "admin") ≡ answer m)
        × ((pos 0 <ℤ m) ⊎ Allowed q request attrs)
  unfolding evaluate_abac_policies has_role
  policies_sound h = elim (Answer-cases (q.find_attributes request.user_id)) [
    | inr (e, f) ↦ absurd (ground arith)
    | inl (attrs, f) ↦ elim (Answer-cases (q.count_roles request.user_id (bytes "admin"))) [
      | inr (e, c) ↦ absurd (ground arith)
      | inl (m, c) ↦ elim (Bool-cases (ltb_ℤ (pos 0) m)) [
        | inl admin ↦ (m, attrs, f, c, inl (ground arith))
        | inr other ↦ (m, attrs, f, c, inr (resource_sound attrs (ground arith)))
      ]
    ]
  ]

  policies_complete :
      (m : ℤ) (attrs : List UserAttribute)
      → q.find_attributes request.user_id ≡ answer attrs
      → q.count_roles request.user_id (bytes "admin") ≡ answer m
      → (pos 0 <ℤ m) ⊎ Allowed q request attrs
      → ((evaluate_abac_policies q request).allowed ≡ true)
        × ((evaluate_abac_policies q request).error ≡ none)
  unfolding evaluate_abac_policies has_role
  policies_complete m attrs f c (inl admin) = ground arith
  policies_complete m attrs f c (inr a) = ground (arith, resource_complete attrs a)

  granted_sound :
      (now : Time) → (is_authorized q request now).0.decision ≡ bytes "allowed" → Granted q request
  unfolding is_authorized has_permission
  granted_sound now h =
      elim (Answer-cases (q.count_permissions request.user_id request.resource request.action)) [
        | inr (e, c) ↦ absurd (ground arith)
        | inl (n, c) ↦
            let (m, attrs, f, r, a) = policies_sound (ground arith) in
            (n, m, attrs, c, ground arith, f, r, a)
      ]

  pub granted_complete :
      (now : Time)
      → Granted q request
      → ((is_authorized q request now).0.decision ≡ bytes "allowed")
        × ((is_authorized q request now).1 ≡ none)
  unfolding is_authorized has_permission
  granted_complete now (n, m, attrs, c, h, f, r, a) =
      ground (arith, policies_complete m attrs f r a)

  -- `IsAuthorized` allows a request exactly if it is granted: all queries on the way answer, the user
  -- has a permission for the resource and the action, and is an admin or meets the policy of the
  -- resource. In every other case, failed queries included, the decision is another than "allowed".
  pub is_authorized-Granted :
      (now : Time)
      → ((is_authorized q request now).0.decision ≡ bytes "allowed") ↔ Granted q request
  is_authorized-Granted now = (granted_sound now, λ g. (granted_complete now g).0)

  -- An answer is one of three: allowed, with no error and by both policies together; denied with no
  -- error, by the role-based or the attribute-based policy; or an error, and then denied.
  pub is_authorized_outcome :
      (now : Time)
      → let (decision, err) = is_authorized q request now in
        ((err ≡ none)
          × (decision.decision ≡ bytes "allowed")
          × (decision.policy_type ≡ bytes "combined"))
        ⊎ ((err ≡ none)
            × (decision.decision ≡ bytes "denied")
            × ((decision.policy_type ≡ bytes "rbac") ⊎ (decision.policy_type ≡ bytes "abac")))
        ⊎ ((e : Bytes) × (err ≡ some e)
            × (decision.decision ≡ bytes "denied")
            × (decision.policy_type ≡ bytes "combined"))
  unfolding is_authorized
  is_authorized_outcome now =
      elim (Answer-cases (has_permission q request.user_id request.resource request.action)) [
        | inr (e, c) ↦ inr (inr (e, ground arith, ground arith, ground arith))
        | inl (false, c) ↦ inr (inl (ground arith))
        | inl (true, c) ↦ elim (Option-cases (evaluate_abac_policies q request).error) [
          | inr (e, f) ↦ inr (inr (e, ground arith, ground arith, ground arith))
          | inl f ↦ elim (Bool-cases (evaluate_abac_policies q request).allowed) [
            | inl a ↦ inl (ground arith)
            | inr a ↦ inr (inl (ground arith))
          ]
        ]
      ]
