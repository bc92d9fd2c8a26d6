-- ===== src/Middleware/Rbac/Subjects.antt =====
-- Whom a request of rbac_abac.go is from and what its path names, described apart from the code.
use task_management_api.Shared.{
  true, false, ◌≡◌, ◌≢◌, refl, sym, ◌∙◌, ◌⊎◌, inl, inr, Option, none, some, List, [], ◌∷◌, ◌++◌,
  Bytes, bytes, bytes_eq, bytes_eq_iff, drop, arith, Bool-cases, Option-cases,
}
use task_management_api.Models.{Uuid}
use task_management_api.Middleware.Authz.{
  MapClaims, Token, Jwt, parsed, has_prefix, as_text, text_or_empty,
}
use task_management_api.Middleware.Authz.Admission.{prefix_sound, Parsed-cases}
use task_management_api.Middleware.Rbac.{
  Request, extracted, nil_uuid, extract_user_from_token, resource_param, abac_request,
}

-- What the path may name.
abbrev pub path_params : List Bytes
path_params = bytes "task_id" ∷ bytes "user_id" ∷ bytes "id" ∷ []

module _ (uuid_from_string : Bytes → Option Uuid) (request : Request) where
  -- The first of the parameters that is there and a UUID, or nothing.
  abbrev pub FirstOf : List Bytes → Option Uuid → Type 0
  FirstOf [] found = found ≡ none
  FirstOf (name ∷ names) found =
      ((id : Uuid) × (request.param name ≢ [])
        × (uuid_from_string (request.param name) ≡ some id)
        × (found ≡ some id))
      ⊎ (((request.param name ≡ []) ⊎ (uuid_from_string (request.param name) ≡ none))
          × FirstOf names found)

  pub FirstOf-unique :
      (names : List Bytes) (x y : Option Uuid) → FirstOf names x → FirstOf names y → x ≡ y
  FirstOf-unique [] x y h k = h ∙ sym k
  FirstOf-unique (name ∷ names) x y (inl (id, n, u, e)) (inl (id', n', u', e')) =
      ground (arith, u, u', e, e')
  FirstOf-unique (name ∷ names) x y (inl (id, n, u, e)) (inr (inl m, k)) = absurd (n m)
  FirstOf-unique (name ∷ names) x y (inl (id, n, u, e)) (inr (inr m, k)) =
      absurd (ground (arith, u, m))
  FirstOf-unique (name ∷ names) x y (inr (inl m, k)) (inl (id, n, u, e)) = absurd (n m)
  FirstOf-unique (name ∷ names) x y (inr (inr m, k)) (inl (id, n, u, e)) =
      absurd (ground (arith, u, m))
  FirstOf-unique (name ∷ names) x y (inr (_, k)) (inr (_, l)) = FirstOf-unique names x y k l

module _ {F : Type 0} (jwt : Jwt F) (uuid_from_string : Bytes → Option Uuid)
    (request : Request) where
  param_sound :
      (name : Bytes) (names : List Bytes) (before : Option Uuid)
      → FirstOf uuid_from_string request names before
      → FirstOf uuid_from_string request
          (name ∷ names)
          (resource_param jwt uuid_from_string request name before)
  unfolding resource_param
  param_sound name names before h = elim (Bool-cases (bytes_eq (request.param name) [])) [
    | inl e ↦ rw (resource_param, e) (inr (inl ((bytes_eq_iff (request.param name) []).0 e), h))
    | inr e ↦ elim (Option-cases (uuid_from_string (request.param name))) [
      | inl f ↦ rw (resource_param, e, f) (inr (inr refl, h))
      | inr (id, f) ↦
          rw (resource_param, e, f)
            (inl (id, ground (arith, e, bytes_eq_iff (request.param name) []), refl, refl))
    ]
  ]

  pub abac_request-FirstOf :
      (resource action : Bytes) (user : Uuid)
      → FirstOf uuid_from_string request path_params
          (abac_request jwt uuid_from_string resource action request user).resource_id
  unfolding abac_request
  abac_request-FirstOf resource action user =
      let by_id = resource_param jwt uuid_from_string request (bytes "id") none in
      param_sound (bytes "task_id") (bytes "user_id" ∷ bytes "id" ∷ [])
        (resource_param jwt uuid_from_string request (bytes "user_id") by_id)
        (param_sound (bytes "user_id") (bytes "id" ∷ []) by_id
          (param_sound (bytes "id") [] none refl))

module _ {F : Type 0} (jwt : Jwt F) (uuid_from_string : Bytes → Option Uuid) where
  -- The header is a bearer token that parses with the key that is written in the code and names the
  -- user as its `user_id`; or it parses and is not valid, which stands for the nil user.
  abbrev pub IsFrom : (auth_header : Bytes) → Uuid → Type 0
  IsFrom auth_header user =
      (rest : Bytes) × (token : Token F) × (auth_header ≡ bytes "Bearer " ++ rest)
      × (jwt.parse (λ is_hmac. some (bytes "default_secret")) rest ≡ parsed token)
      × (((token.valid ≡ false) × (user ≡ nil_uuid))
          ⊎ ((claims : MapClaims F) × (user_id : Bytes) × (token.valid ≡ true)
              × (token.claims ≡ some claims)
              × (as_text (claims (bytes "user_id")) ≡ some user_id)
              × (uuid_from_string user_id ≡ some user)))

  pub extracted_sound :
      (auth_header : Bytes) (user : Uuid) (role : Bytes)
      → extract_user_from_token jwt uuid_from_string auth_header ≡ extracted user role
      → IsFrom auth_header user
  unfolding extract_user_from_token
  extracted_sound auth_header user role h =
      elim (Bool-cases (has_prefix auth_header (bytes "Bearer "))) [
        | inr no_bearer ↦ absurd (ground arith)
        | inl bearer ↦
            let a = prefix_sound auth_header (bytes "Bearer ") bearer in
            elim (Parsed-cases jwt
              (jwt.parse (λ is_hmac. some (bytes "default_secret")) (drop 7 auth_header))) [
                | inr e ↦ absurd (ground arith)
                | inl (token, e) ↦ elim (Bool-cases token.valid) [
                  | inr v ↦ (drop 7 auth_header, token, a, e, inl (v, ground arith))
                  | inl v ↦ elim (Option-cases token.claims) [
                    | inl c ↦ absurd (ground arith)
                    | inr (claims, c) ↦ elim (Option-cases (as_text (claims (bytes "user_id")))) [
                      | inl t ↦ absurd (ground arith)
                      | inr (user_id, t) ↦ elim (Option-cases (uuid_from_string user_id)) [
                        | inl u ↦ absurd (ground arith)
                        | inr (id, u) ↦ (
                          drop 7 auth_header,
                          token,
                          a,
                          e,
                          inr (claims, user_id, v, c, t, ground arith),
                        )
                      ]
                    ]
                  ]
                ]
              ]
      ]

  pub extracted_complete :
      (auth_header : Bytes) (user : Uuid)
      → IsFrom auth_header user
      → (role : Bytes) × (extract_user_from_token jwt uuid_from_string auth_header
          ≡ extracted user role)
  unfolding extract_user_from_token bytes_eq
  extracted_complete auth_header user (rest, token, a, e, inl (v, n)) = ([], rw (a, e, v, n) refl)
  extracted_complete auth_header user (rest, token, a, e, inr (claims, user_id, v, c, t, u)) =
      (text_or_empty (as_text (claims (bytes "role"))), rw (a, e, v, c, t, u) refl)
