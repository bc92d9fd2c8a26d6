-- ===== src/Services/Auth.antt =====
-- backend/internal/services/auth.go, over the statements of the database, `jwt.Parse` and
-- `SignedString`, bcrypt, and the printing and parsing of UUIDs, which are parameters. Of a wrapped
-- error the text in front is kept. A fresh UUID is an argument, `none` where the generator fails.
pub mod Service
pub mod Ids
pub mod Leaves
pub mod Spent
pub mod Issued
mod Tests
use task_management_api.Shared.{
  ℕ, Bool, true, false, not, ◌||◌, Option, none, some, List, [], ◌∷◌, map, Bytes, bytes, bytes_eq,
  if◌then◌else◌,
}
use task_management_api.Shared.Int.{ℤ, pos, Time, ◌+ℤ◌, unix}
use task_management_api.Models.{Uuid, TokenRow}
use task_management_api.Services.Database.{Answer, answer, failure, Found, found, not_found, broken}
use task_management_api.Middleware.Authz.{
  Claim, text, number, array, MapClaims, Token, Parsed, parsed, parse_error, Jwt, secret, key_func,
  as_text,
}

-- The statements, on any state `S` of the database; `U` is a row of users.
pub record AuthTable (S U : Type 0) : Type 0 where
  pub find_user : S → (email : Bytes) → Found U
  pub password : U → Bytes
  pub role_name : S → Uuid → Answer Bytes
  pub permissions : S → Uuid → Answer (List Bytes)
  pub find_token : S → (jti user_id : Uuid) → (after : Time) → Found TokenRow
  pub create_token : S → TokenRow → S × Option Bytes
  pub delete_token : S → TokenRow → S × Option Bytes
  pub delete_jti : S → Uuid → S × Option Bytes

-- `sign` is `SignedString` of claims for HS256; `of_int64` is the number that a claim holds once it is
-- JSON.
pub record Libraries (F : Type 0) : Type 0 where
  pub jwt : Jwt F
  pub sign : (key : Bytes) → MapClaims F → Option Bytes
  pub of_int64 : ℤ → F
  pub uuid_string : Uuid → Bytes
  pub uuid_from_string : Bytes → Option Uuid
  pub compare_hash : (hashed plain : Bytes) → Option Bytes

-- What a token is found to claim, or the error.
pub data Claimed (A : Type 0) : Type 0 where
  claimed : A → Claimed A
  rejected : Bytes → Claimed A

pub data Result (A : Type 0) : Type 0 where
  success : A → Result A
  error : Bytes → Result A
  panicked : Result A

unfoldable pub claims_of : {F : Type 0} → List (Bytes × Claim F) → MapClaims F
unfolding bytes_eq
claims_of [] name = none
claims_of ((n, c) ∷ rest) name = if bytes_eq name n then some c else claims_of rest name

abbrev pub hour : ℤ
hour = pos 3_600_000_000_000

-- Where the query fails or finds no name.
unfoldable pub role_or_user : Answer Bytes → Bytes
role_or_user (failure e) = bytes "user"
role_or_user (answer []) = bytes "user"
role_or_user (answer (b ∷ bs)) = b ∷ bs

unfoldable pub permissions_or_none : Answer (List Bytes) → List Bytes
permissions_or_none (failure e) = []
permissions_or_none (answer ps) = ps

unfoldable pub with_user : (jti : Uuid) → Claimed Uuid → Claimed (Uuid × Uuid)
with_user jti (claimed user_id) = claimed (jti, user_id)
with_user jti (rejected e) = rejected e

module _ {F : Type 0} (lib : Libraries F) where
  unfoldable pub access_claims :
      Uuid → (role : Bytes) → (permissions : List Bytes) → Time → MapClaims F
  unfolding claims_of ◌+ℤ◌ unix
  access_claims user_id role permissions now = claims_of (
      (bytes "user_id", text (lib.uuid_string user_id))
      ∷ (bytes "role", text role)
      ∷ (bytes "permissions", array (map (λ (p : Bytes). some p) permissions))
      ∷ (bytes "iat", number (lib.of_int64 (unix now)))
      ∷ (bytes "exp", number (lib.of_int64 (unix (now +ℤ hour))))
      ∷ (bytes "iss", text (bytes "taskify-backend"))
      ∷ (bytes "aud", text (bytes "taskify-users"))
      ∷ [])

  unfoldable pub refresh_claims : Uuid → (jti : Uuid) → Time → MapClaims F
  unfolding claims_of ◌+ℤ◌ unix
  refresh_claims user_id jti now = claims_of (
      (bytes "user_id", text (lib.uuid_string user_id))
      ∷ (bytes "type", text (bytes "refresh"))
      ∷ (bytes "jti", text (lib.uuid_string jti))
      ∷ (bytes "iat", number (lib.of_int64 (unix now)))
      ∷ (bytes "exp", number (lib.of_int64 (unix (now +ℤ hour))))
      ∷ (bytes "iss", text (bytes "taskify-backend"))
      ∷ (bytes "aud", text (bytes "taskify-users"))
      ∷ [])

  unfoldable pub claim_uuid : MapClaims F → (name missing invalid : Bytes) → Claimed Uuid
  claim_uuid claims name missing invalid = elim (as_text (claims name)) [
    | none ↦ rejected missing
    | some t ↦ elim (lib.uuid_from_string t) [ none ↦ rejected invalid | some id ↦ claimed id ]
  ]

  unfoldable pub verify_password : (hashed plain : Bytes) → Bool
  verify_password hashed plain = elim (lib.compare_hash hashed plain) [
    | none ↦ true
    | some e ↦ false
  ]

  unfoldable pub jti_of : MapClaims F → Claimed Uuid
  unfolding claim_uuid
  jti_of claims =
      claim_uuid claims (bytes "jti") (bytes "missing jti in token") (bytes "invalid jti format")

  unfoldable pub with_jti : MapClaims F → Claimed Uuid → Claimed (Uuid × Uuid)
  unfolding claim_uuid with_user
  with_jti claims (rejected e) = rejected e
  with_jti claims (claimed jti) = with_user jti (
      claim_uuid claims (bytes "user_id") (bytes "missing user_id in token")
        (bytes "invalid user_id format"))

  unfoldable pub typed_ids : MapClaims F → Option Bytes → Claimed (Uuid × Uuid)
  unfolding bytes_eq jti_of with_jti
  typed_ids claims none = rejected (bytes "invalid token type")
  typed_ids claims (some t) =
      if not (bytes_eq t (bytes "refresh"))
      then rejected (bytes "invalid token type")
      else with_jti claims (jti_of claims)

  unfoldable pub claims_ids : (valid : Bool) → Option (MapClaims F) → Claimed (Uuid × Uuid)
  unfolding typed_ids
  claims_ids valid none = rejected (bytes "invalid refresh token claims")
  claims_ids valid (some claims) =
      if not valid
      then rejected (bytes "invalid refresh token claims")
      else typed_ids claims (as_text (claims (bytes "type")))

  -- From `token.Claims.(jwt.MapClaims)` to the two identifiers.
  unfoldable pub refresh_ids : Token F → Claimed (Uuid × Uuid)
  unfolding claims_ids
  refresh_ids token = claims_ids token.valid token.claims
