-- ===== src/Middleware/Authz/Tests.antt =====
-- `AuthzMiddleware` at concrete requests: a token is valid if it reads "good", for any HMAC key.
use task_management_api.Shared.{
  ◌≡◌, ◌↔◌, refl, true, none, some, [], ◌∷◌, bytes, bytes_eq, if◌then◌else◌,
}
use task_management_api.Shared.Int.{ℤ, pos, ◌*ℤ◌}
use task_management_api.Middleware.Authz.{
  AuthzConfig, text, number, array, MapClaims, Jwt, parsed, parse_error, abort, next,
  authz_middleware,
}
use task_management_api.Middleware.Authz.Admission.{Admitted, authz_middleware-Admitted}

abbrev claims : MapClaims ℤ
claims key =
    if bytes_eq key (bytes "exp")
    then some (number (pos 10))
    else if bytes_eq key (bytes "iss")
    then some (text (bytes "taskify-backend"))
    else if bytes_eq key (bytes "role")
    then some (text (bytes "user"))
    else if bytes_eq key (bytes "permissions")
    then some (array (none ∷ some (bytes "task:read") ∷ []))
    else if bytes_eq key (bytes "user_id")
    then some (text (bytes "u1"))
    else none

abbrev jwt : Jwt ℤ
jwt = record {
  parse = λ key_func token. elim (key_func true) [
    | none ↦ parse_error
    | some key ↦
        if bytes_eq token (bytes "good")
        then parsed (record { valid = true; claims = some claims })
        else parse_error
  ];
  to_int64 = λ f. f;
}

abbrev readers : AuthzConfig
readers = record { role = []; permissions = bytes "task:read" ∷ [] }

abbrev admins : AuthzConfig
admins = record { role = bytes "admin"; permissions = [] }

reader_admitted :
    authz_middleware jwt readers none (bytes "Bearer good") (pos 5)
    ≡ next
        (some (text (bytes "u1")))
        (some (text (bytes "user")))
        (some (array (none ∷ some (bytes "task:read") ∷ [])))
unfolding authz_middleware bytes_eq ◌*ℤ◌
reader_admitted = refl

user_no_admin :
    authz_middleware jwt admins none (bytes "Bearer good") (pos 5)
    ≡ abort 403 (bytes "insufficient_role")
unfolding authz_middleware bytes_eq ◌*ℤ◌
user_no_admin = refl

authz_middleware-Admitted_example :
    (authz_middleware jwt readers none (bytes "Bearer good") (pos 5)
      ≡ next
          (some (text (bytes "u1")))
          (some (text (bytes "user")))
          (some (array (none ∷ some (bytes "task:read") ∷ []))))
    ↔ Admitted jwt readers none
        (bytes "Bearer good")
        (pos 5)
        (some (text (bytes "u1")))
        (some (text (bytes "user")))
        (some (array (none ∷ some (bytes "task:read") ∷ [])))
authz_middleware-Admitted_example =
    authz_middleware-Admitted jwt readers none (bytes "Bearer good") (pos 5)
      (some (text (bytes "u1"))) (some (text (bytes "user")))
      (some (array (none ∷ some (bytes "task:read") ∷ [])))
