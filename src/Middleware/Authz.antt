-- ===== src/Middleware/Authz.antt =====
-- `AuthzMiddleware` of backend/internal/middleware/authz.go: what a request is answered before its
-- handler. `jwt.Parse` is a parameter, which is given the key function of the code, and so is the
-- conversion of a float64 to an int64.
pub mod Admission
mod Tests
use task_management_api.Shared.{
  ℕ, ◌*◌, Bool, true, false, Option, none, some, List, [], ◌∷◌, ◌&&◌, ◌||◌, not, Bytes, bytes,
  bytes_eq, length, take, drop, if◌then◌else◌,
}
use task_management_api.Shared.Int.{ℤ, pos, Time, ltb_ℤ, ◌*ℤ◌}

pub record AuthzConfig : Type 0 where
  pub role : Bytes
  pub permissions : List Bytes

-- A value of `jwt.MapClaims`, as far as the code tells types apart: an element of an array is a text
-- or, as `none`, of another type.
pub data Claim (F : Type 0) : Type 0 where
  text : Bytes → Claim F
  number : F → Claim F
  array : List (Option Bytes) → Claim F
  other : Claim F

abbrev pub MapClaims : Type 0 → Type 0
MapClaims F = Bytes → Option (Claim F)

-- `claims` is `none` if they are no `jwt.MapClaims`.
pub record Token (F : Type 0) : Type 0 where
  pub valid : Bool
  pub claims : Option (MapClaims F)

pub data Parsed (F : Type 0) : Type 0 where
  parsed : Token F → Parsed F
  parse_error : Parsed F

-- `parse` is given the key for a signing method that is HMAC or not.
pub record Jwt (F : Type 0) : Type 0 where
  pub parse : (key_func : Bool → Option Bytes) → Bytes → Parsed F
  pub to_int64 : F → ℤ

-- An abort with a status and an error, or the call of the next handler, with what was set for it.
pub data Response (F : Type 0) : Type 0 where
  abort : (status : ℕ) → (error : Bytes) → Response F
  next : (user_id user_role user_permissions : Option (Claim F)) → Response F

-- `none` is an unset or empty `JWT_SECRET`.
unfoldable pub secret : Option Bytes → Bytes
secret none = bytes "default_secret_change_in_production"
secret (some s) = s

unfoldable pub key_func : Bytes → Bool → Option Bytes
key_func key true = some key
key_func key false = none

unfoldable pub has_prefix : (s prefix : Bytes) → Bool
unfolding bytes_eq
has_prefix s prefix = bytes_eq (take (length prefix) s) prefix

module _ {F : Type 0} where
  -- The comma-ok assertions to string, float64 and []interface{}.
  abbrev pub as_text : Option (Claim F) → Option Bytes
  as_text (some (text t)) = some t
  as_text (some (number f)) = none
  as_text (some (array cs)) = none
  as_text (some other) = none
  as_text none = none

  abbrev pub as_number : Option (Claim F) → Option F
  as_number (some (text t)) = none
  as_number (some (number f)) = some f
  as_number (some (array cs)) = none
  as_number (some other) = none
  as_number none = none

  abbrev pub as_array : Option (Claim F) → List (Option Bytes)
  as_array (some (text t)) = []
  as_array (some (number f)) = []
  as_array (some (array cs)) = cs
  as_array (some other) = []
  as_array none = []

abbrev pub text_or_empty : Option Bytes → Bytes
text_or_empty none = []
text_or_empty (some t) = t

-- `userPerms[required]`
unfoldable pub permitted : List (Option Bytes) → Bytes → Bool
unfolding bytes_eq
permitted [] required = false
permitted (none ∷ ps) required = permitted ps required
permitted (some p ∷ ps) required = bytes_eq p required || permitted ps required

-- The loop over the required permissions: the first one that is missing.
unfoldable pub first_missing : List (Option Bytes) → List Bytes → Option Bytes
unfolding permitted
first_missing cs [] = none
first_missing cs (required ∷ rest) =
    if permitted cs required then first_missing cs rest else some required

module _ {F : Type 0} (jwt : Jwt F) where
  -- `time.Unix(int64(exp), 0).Before(time.Now())`
  unfoldable pub expired : MapClaims F → Time → Bool
  unfolding ◌*ℤ◌
  expired claims now = elim (as_number (claims (bytes "exp"))) [
    | none ↦ false
    | some exp ↦ ltb_ℤ (jwt.to_int64 exp *ℤ pos 1_000_000_000) now
  ]

  unfoldable pub wrong_issuer : MapClaims F → Bool
  unfolding bytes_eq
  wrong_issuer claims = elim (as_text (claims (bytes "iss"))) [
    | none ↦ false
    | some iss ↦ not (bytes_eq iss (bytes "taskify-backend"))
  ]

  unfoldable pub wrong_role : AuthzConfig → MapClaims F → Bool
  unfolding bytes_eq
  wrong_role config claims =
      let role = text_or_empty (as_text (claims (bytes "role"))) in
      not (bytes_eq config.role [])
      && (not (bytes_eq role config.role) && not (bytes_eq role (bytes "admin")))

  unfoldable pub check_claims : AuthzConfig → MapClaims F → Time → Response F
  unfolding expired wrong_issuer wrong_role first_missing
  check_claims config claims now =
      if expired claims now
      then abort 401 (bytes "expired_token")
      else if wrong_issuer claims
      then abort 401 (bytes "invalid_issuer")
      else if wrong_role config claims
      then abort 403 (bytes "insufficient_role")
      else elim (first_missing (as_array (claims (bytes "permissions"))) config.permissions) [
        | some required ↦ abort 403 (bytes "missing_permission")
        | none ↦
            next (claims (bytes "user_id")) (claims (bytes "role")) (claims (bytes "permissions"))
      ]

  unfoldable pub authz_middleware :
      AuthzConfig → (jwt_secret : Option Bytes) → Bytes → Time → Response F
  unfolding secret key_func has_prefix check_claims
  authz_middleware config jwt_secret auth_header now =
      if bytes_eq auth_header []
      then abort 401 (bytes "missing_token")
      else if not (has_prefix auth_header (bytes "Bearer "))
      then abort 401 (bytes "invalid_token_format")
      else elim (jwt.parse (key_func (secret jwt_secret)) (drop 7 auth_header)) [
        | parse_error ↦ abort 401 (bytes "invalid_token")
        | parsed token ↦
            if not token.valid then abort 401 (bytes "expired_token") else elim token.claims [
              | none ↦ abort 401 (bytes "invalid_claims")
              | some claims ↦ check_claims config claims now
            ]
      ]
