-- ===== src/Services/Auth/Service.antt =====
-- The methods of `AuthServiceImpl` in backend/internal/services/auth.go.
use task_management_api.Shared.{Option, none, some, List, [], Bytes, bytes, if◌then◌else◌}
use task_management_api.Shared.Int.{ℤ, pos, Time, ◌+ℤ◌}
use task_management_api.Models.{Uuid, TokenRow}
use task_management_api.Services.Database.{answer, failure, Found, found, not_found, broken}
use task_management_api.Middleware.Authz.{MapClaims, Parsed, parsed, parse_error, secret, key_func}
use task_management_api.Services.Auth.{
  AuthTable, Libraries, Result, success, error, panicked, Claimed, claimed, rejected, hour,
  role_or_user, permissions_or_none, access_claims, refresh_claims, verify_password, jti_of,
  refresh_ids,
}

unfoldable pub created :
    {S : Type 0} → S × Option Bytes → (access refresh : Bytes) → S × Result (Bytes × Bytes)
created (db, none) access refresh = (db, success (access, refresh))
created (db, some e) access refresh = (db, error (bytes "failed to create token record"))

unfoldable pub deleted :
    {S : Type 0} → S × Option Bytes → (access refresh : Bytes) → S × Result (Bytes × Bytes × ℤ)
deleted (db, none) access refresh = (db, success (access, refresh, pos 3600))
deleted (db, some e) access refresh = (db, error (bytes "failed to delete old token"))

unfoldable pub revoked : {S : Type 0} → S × Option Bytes → S × Result (Unit {0})
revoked (db, none) = (db, success tt)
revoked (db, some e) = (db, error e)

module _ {F S U : Type 0} (lib : Libraries F) (table : AuthTable S U) where
  unfoldable pub login_user : S → (email password : Bytes) → Result U
  unfolding verify_password
  login_user db email password = elim (table.find_user db email) [
    | not_found ↦ error (bytes "record not found")
    | broken e ↦ error e
    | found user ↦
        if verify_password lib (table.password user) password
        then success user
        else error (bytes "invalid data")
  ]

  unfoldable pub get_user_permissions : S → Uuid → List Bytes × Option Bytes
  get_user_permissions db user_id = elim (table.permissions db user_id) [
    | failure e ↦ ([], some e)
    | answer ps ↦ (ps, none)
  ]

  -- The record of a refresh token; `uuid.Must` panics where there is no `id`.
  unfoldable pub recorded :
      S
      → Uuid
      → (jti : Uuid) → (id : Option Uuid) → Time
      → (access refresh : Bytes) → S × Result (Bytes × Bytes)
  unfolding created ◌+ℤ◌
  recorded db user_id jti none now access refresh = (db, panicked)
  recorded db user_id jti (some id) now access refresh =
      created
        (table.create_token db (record {
          id = id;
          user_id = user_id;
          jti = jti;
          refresh_token = refresh;
          expires_at = now +ℤ hour;
        }))
        access refresh

  unfoldable pub with_refresh :
      S
      → Uuid
      → (jti : Uuid) → (id : Option Uuid) → Time
      → (access : Bytes) → (signed : Option Bytes) → S × Result (Bytes × Bytes)
  unfolding recorded
  with_refresh db user_id jti id now access none =
      (db, error (bytes "failed to sign refresh token"))
  with_refresh db user_id jti id now access (some refresh) =
      recorded db user_id jti id now access refresh

  unfoldable pub with_access :
      (jwt_secret : Option Bytes)
      → S
      → Uuid
      → (jti id : Option Uuid) → Time
      → (signed : Option Bytes) → S × Result (Bytes × Bytes)
  unfolding secret refresh_claims with_refresh
  with_access jwt_secret db user_id jti id now none =
      (db, error (bytes "failed to sign access token"))
  with_access jwt_secret db user_id none id now (some access) =
      (db, error (bytes "failed to generate jti"))
  with_access jwt_secret db user_id (some jti) id now (some access) =
      with_refresh db user_id jti id now access
        (lib.sign (secret jwt_secret) (refresh_claims lib user_id jti now))

  unfoldable pub generate_token :
      (jwt_secret : Option Bytes)
      → S
      → Uuid
      → (jti id : Option Uuid) → Time
      → S × Result (Bytes × Bytes)
  unfolding secret role_or_user permissions_or_none access_claims with_access
  generate_token jwt_secret db user_id jti id now =
      let role = role_or_user (table.role_name db user_id) in
      let permissions = permissions_or_none (table.permissions db user_id) in
      with_access jwt_secret db user_id jti id now
        (lib.sign (secret jwt_secret) (access_claims lib user_id role permissions now))

  -- The old record is deleted once there are new tokens.
  unfoldable pub replaced : TokenRow → S × Result (Bytes × Bytes) → S × Result (Bytes × Bytes × ℤ)
  unfolding deleted
  replaced row (db, error e) = (db, error (bytes "failed to generate new tokens"))
  replaced row (db, panicked) = (db, panicked)
  replaced row (db, success (access, refresh)) = deleted (table.delete_token db row) access refresh

  unfoldable pub found_row :
      (jwt_secret : Option Bytes)
      → S
      → Found TokenRow
      → Uuid
      → (jti id : Option Uuid) → Time
      → S × Result (Bytes × Bytes × ℤ)
  unfolding generate_token replaced
  found_row jwt_secret db not_found user_id jti id now =
      (db, error (bytes "refresh token not found or expired"))
  found_row jwt_secret db (broken e) user_id jti id now = (db, error (bytes "database error"))
  found_row jwt_secret db (found row) user_id jti id now =
      replaced row (generate_token jwt_secret db user_id jti id now)

  unfoldable pub with_ids :
      (jwt_secret : Option Bytes)
      → S
      → Claimed (Uuid × Uuid)
      → (jti id : Option Uuid) → (now issued : Time) → S × Result (Bytes × Bytes × ℤ)
  unfolding found_row
  with_ids jwt_secret db (rejected e) jti id now issued = (db, error e)
  with_ids jwt_secret db (claimed (old, user_id)) jti id now issued =
      found_row jwt_secret db (table.find_token db old user_id now) user_id jti id issued

  unfoldable pub refreshed :
      (jwt_secret : Option Bytes)
      → S
      → Parsed F
      → (jti id : Option Uuid) → (now issued : Time) → S × Result (Bytes × Bytes × ℤ)
  unfolding refresh_ids with_ids
  refreshed jwt_secret db parse_error jti id now issued =
      (db, error (bytes "invalid refresh token"))
  refreshed jwt_secret db (parsed t) jti id now issued =
      with_ids jwt_secret db (refresh_ids lib t) jti id now issued

  -- `now` is read for the query, `issued` for the new tokens.
  unfoldable pub refresh_token :
      (jwt_secret : Option Bytes)
      → S
      → Bytes
      → (jti id : Option Uuid) → (now issued : Time) → S × Result (Bytes × Bytes × ℤ)
  unfolding secret key_func refreshed
  refresh_token jwt_secret db token jti id now issued =
      refreshed jwt_secret db (lib.jwt.parse (key_func (secret jwt_secret)) token) jti id now issued

  unfoldable pub revoke_jti : S → Claimed Uuid → S × Result (Unit {0})
  unfolding revoked
  revoke_jti db (rejected e) = (db, error e)
  revoke_jti db (claimed jti) = revoked (table.delete_jti db jti)

  unfoldable pub revoke_claims : S → Option (MapClaims F) → S × Result (Unit {0})
  unfolding jti_of revoke_jti
  revoke_claims db none = (db, error (bytes "invalid token claims"))
  revoke_claims db (some claims) = revoke_jti db (jti_of lib claims)

  unfoldable pub revoked_parsed : S → Parsed F → S × Result (Unit {0})
  unfolding revoke_claims
  revoked_parsed db parse_error = (db, error (bytes "invalid refresh token"))
  revoked_parsed db (parsed t) = revoke_claims db t.claims

  unfoldable pub revoke_token : (jwt_secret : Option Bytes) → S → Bytes → S × Result (Unit {0})
  unfolding secret key_func revoked_parsed
  revoke_token jwt_secret db token =
      revoked_parsed db (lib.jwt.parse (key_func (secret jwt_secret)) token)
