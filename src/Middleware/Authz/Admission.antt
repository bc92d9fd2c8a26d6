-- ===== src/Middleware/Authz/Admission.antt =====
-- Which requests authz.go lets through, described apart from the code.
use task_management_api.Shared.{
  true, false, ◌≡◌, refl, ◌⊎◌, inl, inr, ◌↔◌, Option, none, some, List, [], ◌∷◌, ◌++◌, Bytes, bytes,
  bytes_eq, bytes_eq_iff, length, drop, arith, Bool-cases, Option-cases,
}
use task_management_api.Shared.Int.{pos, Time, ◌≤ℤ◌, ◌*ℤ◌}
use task_management_api.Middleware.Authz.{
  AuthzConfig, Claim, MapClaims, Token, Parsed, parsed, parse_error, Jwt, next, secret, key_func,
  has_prefix, as_text, as_number, as_array, permitted, first_missing, expired, wrong_issuer,
  wrong_role, check_claims, authz_middleware,
}

-- One of the permissions of a token is the text.
abbrev pub Holds : List (Option Bytes) → Bytes → Type 0
Holds [] required = ⊥
Holds (p ∷ ps) required = (p ≡ some required) ⊎ Holds ps required

abbrev pub HoldsAll : List (Option Bytes) → List Bytes → Type 0
HoldsAll ps [] = Unit {0}
HoldsAll ps (required ∷ rest) = Holds ps required × HoldsAll ps rest

permitted_iff :
    (ps : List (Option Bytes)) (required : Bytes)
    → (permitted ps required ≡ true) ↔ Holds ps required
unfolding permitted
permitted_iff [] required = ground arith
permitted_iff (none ∷ ps) required = ground (arith, permitted_iff ps required)
permitted_iff (some p ∷ ps) required =
    ground (arith, permitted_iff ps required, bytes_eq_iff p required)

missing_iff :
    (ps : List (Option Bytes)) (required : List Bytes)
    → (first_missing ps required ≡ none) ↔ HoldsAll ps required
unfolding first_missing
missing_iff ps [] = (λ _. tt, λ _. refl)
missing_iff ps (required ∷ rest) = ground (arith, permitted_iff ps required, missing_iff ps rest)

-- What stands behind a prefix.
pub prefix_sound :
    (s prefix : Bytes) → has_prefix s prefix ≡ true → s ≡ prefix ++ drop (length prefix) s
unfolding has_prefix bytes_eq
prefix_sound s [] h = refl
prefix_sound [] (b ∷ bs) h = absurd (ground arith)
prefix_sound (x ∷ xs) (b ∷ bs) h = ground (arith, prefix_sound xs bs)

module _ {F : Type 0} (jwt : Jwt F) where
  -- No expiry that has passed, no other issuer, the role or that of an admin, and every permission.
  abbrev pub Suffices : AuthzConfig → MapClaims F → Time → Type 0
  Suffices config claims now =
      ((as_number (claims (bytes "exp")) ≡ none)
        ⊎ ((exp : F) × (as_number (claims (bytes "exp")) ≡ some exp)
            × (now ≤ℤ jwt.to_int64 exp *ℤ pos 1_000_000_000)))
      × ((as_text (claims (bytes "iss")) ≡ none)
          ⊎ (as_text (claims (bytes "iss")) ≡ some (bytes "taskify-backend")))
      × ((config.role ≡ [])
          ⊎ (as_text (claims (bytes "role")) ≡ some config.role)
          ⊎ (as_text (claims (bytes "role")) ≡ some (bytes "admin")))
      × HoldsAll (as_array (claims (bytes "permissions"))) config.permissions

  expired_iff :
      (claims : MapClaims F) (now : Time)
      → (expired jwt claims now ≡ false) ↔ (
          (as_number (claims (bytes "exp")) ≡ none)
          ⊎ ((exp : F) × (as_number (claims (bytes "exp")) ≡ some exp)
              × (now ≤ℤ jwt.to_int64 exp *ℤ pos 1_000_000_000)))
  unfolding expired
  expired_iff claims now = elim (Option-cases (as_number (claims (bytes "exp")))) [
    | inl e ↦ (λ h. inl e, λ h. ground arith)
    | inr (exp, e) ↦ (λ h. inr (exp, e, ground arith), λ h. ground arith)
  ]

  issuer_iff :
      (claims : MapClaims F)
      → (wrong_issuer jwt claims ≡ false) ↔ (
          (as_text (claims (bytes "iss")) ≡ none)
          ⊎ (as_text (claims (bytes "iss")) ≡ some (bytes "taskify-backend")))
  unfolding wrong_issuer
  issuer_iff claims = elim (Option-cases (as_text (claims (bytes "iss")))) [
    | inl e ↦ (λ h. inl e, λ h. ground arith)
    | inr (iss, e) ↦ ground (arith, bytes_eq_iff iss (bytes "taskify-backend"))
  ]

  role_iff :
      (config : AuthzConfig) (claims : MapClaims F)
      → (wrong_role jwt config claims ≡ false) ↔ (
          (config.role ≡ [])
          ⊎ (as_text (claims (bytes "role")) ≡ some config.role)
          ⊎ (as_text (claims (bytes "role")) ≡ some (bytes "admin")))
  unfolding wrong_role
  role_iff config claims = elim (Option-cases (as_text (claims (bytes "role")))) [
    | inl e ↦ ground (
      arith,
      bytes_eq_iff config.role [],
      bytes_eq_iff [] config.role,
      bytes_eq_iff [] (bytes "admin"),
    )
    | inr (role, e) ↦ ground (
      arith,
      bytes_eq_iff config.role [],
      bytes_eq_iff role config.role,
      bytes_eq_iff role (bytes "admin"),
    )
  ]

  abbrev pub Handed : MapClaims F → (user_id user_role user_permissions : Option (Claim F)) → Type 0
  Handed claims user_id user_role user_permissions =
      (user_id ≡ claims (bytes "user_id"))
      × (user_role ≡ claims (bytes "role"))
      × (user_permissions ≡ claims (bytes "permissions"))

  claims_sound :
      (config : AuthzConfig) (claims : MapClaims F) (now : Time) (u r ps : Option (Claim F))
      → check_claims jwt config claims now ≡ next u r ps
      → Suffices config claims now × Handed claims u r ps
  unfolding check_claims
  claims_sound config claims now u r ps h = elim (Bool-cases (expired jwt claims now)) [
    | inl x ↦ absurd (ground arith)
    | inr x ↦ elim (Bool-cases (wrong_issuer jwt claims)) [
      | inl i ↦ absurd (ground arith)
      | inr i ↦ elim (Bool-cases (wrong_role jwt config claims)) [
        | inl w ↦ absurd (ground arith)
        | inr w ↦
            elim (Option-cases
              (first_missing (as_array (claims (bytes "permissions"))) config.permissions)) [
                | inr (p, e) ↦ absurd (ground arith)
                | inl e ↦ (
                  (
                    (expired_iff claims now).0 x,
                    (issuer_iff claims).0 i,
                    (role_iff config claims).0 w,
                    (missing_iff (as_array (claims (bytes "permissions"))) config.permissions).0 e,
                  ),
                  ground arith,
                )
              ]
      ]
    ]
  ]

  claims_complete :
      (config : AuthzConfig) (claims : MapClaims F) (now : Time) (u r ps : Option (Claim F))
      → Suffices config claims now
      → Handed claims u r ps
      → check_claims jwt config claims now ≡ next u r ps
  unfolding check_claims
  claims_complete config claims now u r ps (x, i, w, e) handed =
      let not_expired = (expired_iff claims now).1 x in
      let own_issuer = (issuer_iff claims).1 i in
      let fit_role = (role_iff config claims).1 w in
      let none_missing =
        (missing_iff (as_array (claims (bytes "permissions"))) config.permissions).1 e in
      ground arith

  -- A bearer token that parses with the key of the secret, is valid, and has claims that suffice.
  abbrev pub Admitted :
      AuthzConfig
      → Option Bytes
      → Bytes
      → Time
      → (user_id user_role user_permissions : Option (Claim F)) → Type 0
  Admitted config jwt_secret auth_header now u r ps =
      (rest : Bytes) × (token : Token F) × (claims : MapClaims F) × (auth_header
        ≡ bytes "Bearer " ++ rest)
      × (jwt.parse (key_func (secret jwt_secret)) rest ≡ parsed token)
      × (token.valid ≡ true)
      × (token.claims ≡ some claims)
      × Suffices config claims now
      × Handed claims u r ps

  pub Parsed-cases : (p : Parsed F) → ((token : Token F) × (p ≡ parsed token)) ⊎ (p ≡ parse_error)
  Parsed-cases (parsed token) = inl (token, refl)
  Parsed-cases parse_error = inr refl

  middleware_sound :
      (config : AuthzConfig) (jwt_secret : Option Bytes) (auth_header : Bytes) (now : Time)
      (u r ps : Option (Claim F))
      → authz_middleware jwt config jwt_secret auth_header now ≡ next u r ps
      → Admitted config jwt_secret auth_header now u r ps
  unfolding authz_middleware
  middleware_sound config jwt_secret auth_header now u r ps h =
      elim (Bool-cases (has_prefix auth_header (bytes "Bearer "))) [
        | inr no_bearer ↦ absurd (ground arith)
        | inl bearer ↦
            elim (Parsed-cases (jwt.parse (key_func (secret jwt_secret)) (drop 7 auth_header))) [
              | inr e ↦ absurd (ground arith)
              | inl (token, e) ↦ elim (Option-cases token.claims) [
                | inl c ↦ absurd (ground arith)
                | inr (claims, c) ↦
                    let (suffices, handed) = claims_sound config claims now u r ps (ground arith) in
                    (
                      drop 7 auth_header,
                      token,
                      claims,
                      prefix_sound auth_header (bytes "Bearer ") bearer,
                      e,
                      ground arith,
                      c,
                      suffices,
                      handed,
                    )
              ]
            ]
      ]

  middleware_complete :
      (config : AuthzConfig) (jwt_secret : Option Bytes) (auth_header : Bytes) (now : Time)
      (u r ps : Option (Claim F))
      → Admitted config jwt_secret auth_header now u r ps
      → authz_middleware jwt config jwt_secret auth_header now ≡ next u r ps
  unfolding authz_middleware bytes_eq
  middleware_complete config jwt_secret auth_header now u r ps
        (rest, token, claims, a, e, v, c, x, handed) =
      rw (a, e, v, c) (claims_complete config claims now u r ps x handed)

  -- The middleware calls the next handler exactly on the requests with a bearer token that parses with
  -- the key of the secret and is valid, and whose claims suffice: they are not expired, name no other
  -- issuer, have the required role or that of an admin, and every required permission. The handler
  -- is handed the user, the role and the permissions of the claims. Every other request is aborted.
  pub authz_middleware-Admitted :
      (config : AuthzConfig) (jwt_secret : Option Bytes) (auth_header : Bytes) (now : Time)
      (u r ps : Option (Claim F))
      → (authz_middleware jwt config jwt_secret auth_header now ≡ next u r ps)
        ↔ Admitted config jwt_secret auth_header now u r ps
  authz_middleware-Admitted config jwt_secret auth_header now u r ps = (
    middleware_sound config jwt_secret auth_header now u r ps,
    middleware_complete config jwt_secret auth_header now u r ps,
  )
