-- ===== src/Middleware/Rbac/Ownership.antt =====
-- Which requests `ResourceOwnershipMiddleware` of rbac_abac.go lets through.
use task_management_api.Shared.{
  ◌≡◌, ◌≢◌, ◌⊎◌, inl, inr, ◌↔◌, Option, some, [], Bytes, bytes, bytes_eq_iff, ==_iff, arith,
  Bool-cases, Option-cases, true,
}
use task_management_api.Models.{Uuid}
use task_management_api.Middleware.Rbac.{
  Request, nil_uuid, passed, Stored, absent, a_uuid, a_string, another, is_admin, owned_resource,
  resource_ownership_middleware,
}

-- What the parameter stands for, with `uuid_from_string` as `uuid.FromString`: for users it is
-- `user_id` if that is there, else `id` if that is there, and neither names the nil UUID.
abbrev pub Names : (Bytes → Option Uuid) → (resource_type : Bytes) → Request → Uuid → Type 0
Names uuid_from_string resource_type request resource =
    ((resource_type ≡ bytes "user")
      × (request.param (bytes "user_id") ≢ [])
      × (uuid_from_string (request.param (bytes "user_id")) ≡ some resource))
    ⊎ (((resource_type ≢ bytes "user") ⊎ (request.param (bytes "user_id") ≡ []))
        × (request.param (bytes "id") ≢ [])
        × (uuid_from_string (request.param (bytes "id")) ≡ some resource))
    ⊎ (((resource_type ≢ bytes "user") ⊎ (request.param (bytes "user_id") ≡ []))
        × (request.param (bytes "id") ≡ [])
        × (resource ≡ nil_uuid))

is_admin_iff : (stored : Stored) → (is_admin stored ≡ true) ↔ (stored ≡ a_string (bytes "admin"))
unfolding is_admin
is_admin_iff absent = (λ h. absurd (ground (arith, h)), λ h. absurd (ground (arith, h)))
is_admin_iff (a_uuid id) = (λ h. absurd (ground (arith, h)), λ h. absurd (ground (arith, h)))
is_admin_iff (a_string role) = ground (arith, bytes_eq_iff role (bytes "admin"))
is_admin_iff another = (λ h. absurd (ground (arith, h)), λ h. absurd (ground (arith, h)))

module _ (uuid_from_string : Bytes → Option Uuid) where
  owned_resource_iff :
      (resource_type : Bytes) (request : Request) (resource : Uuid)
      → (owned_resource uuid_from_string resource_type request ≡ some resource)
        ↔ Names uuid_from_string resource_type request resource
  unfolding owned_resource
  owned_resource_iff resource_type request resource = ground (
    arith,
    bytes_eq_iff resource_type (bytes "user"),
    bytes_eq_iff (request.param (bytes "user_id")) [],
    bytes_eq_iff (request.param (bytes "id")) [],
  )

  -- For a user that earlier middleware set, the request passes exactly if the stored role is the string
  -- admin, or the path names a resource and, for users and profiles, that is the user. For users the
  -- resource is the UUID of `user_id` if that is there, else that of `id`, or the nil UUID if neither
  -- is there; a text that is no UUID names nothing.
  pub resource_ownership_iff :
      (resource_type : Bytes) (user : Uuid) (stored_role : Stored) (request : Request)
      → (resource_ownership_middleware uuid_from_string resource_type
            (a_uuid user)
            stored_role
            request
          ≡ passed user)
        ↔ ((stored_role ≡ a_string (bytes "admin"))
            ⊎ ((resource : Uuid) × Names uuid_from_string resource_type request resource
                × (((resource_type ≢ bytes "user") × (resource_type ≢ bytes "profile"))
                    ⊎ (resource ≡ user))))
  unfolding resource_ownership_middleware
  resource_ownership_iff resource_type user stored_role request =
      let admin_iff = is_admin_iff stored_role in
      let named = owned_resource_iff resource_type request in
      elim (Bool-cases (is_admin stored_role)) [
        | inl admin ↦ (λ h. inl (admin_iff.0 admin), λ h. ground arith)
        | inr other ↦ elim (Option-cases (owned_resource uuid_from_string resource_type request)) [
          | inl e ↦ (
            λ h. absurd (ground arith),
            λ h. elim h [
              | inl a ↦ absurd (ground (arith, other, admin_iff.1 a))
              | inr (resource, n, u) ↦ absurd (ground (arith, e, (named resource).1 n))
            ],
          )
          | inr (resource, e) ↦ (
            λ h. inr (
              resource,
              (named resource).0 e,
              ground (
                arith,
                ==_iff resource user,
                bytes_eq_iff resource_type (bytes "user"),
                bytes_eq_iff resource_type (bytes "profile"),
              ),
            ),
            λ h. elim h [
              | inl a ↦ absurd (ground (arith, other, admin_iff.1 a))
              | inr (r, n, u) ↦ ground (
                arith,
                e,
                (named r).1 n,
                u,
                ==_iff resource user,
                bytes_eq_iff resource_type (bytes "user"),
                bytes_eq_iff resource_type (bytes "profile"),
              )
            ],
          )
        ]
      ]
