-- ===== src/Services/Auth/Issued.antt =====
-- The refresh tokens that auth.go issues, presented before they expire.
use task_management_api.Shared.{
  true, ◌≡◌, refl, ap, ◌∙◌, Option, none, some, [], ◌∷◌, Bytes, bytes, arith,
}
use task_management_api.Shared.Int.{ℤ, pos, negsuc, Time, ◌<ℤ◌, ◌≤ℤ◌, ◌+ℤ◌, ◌*ℤ◌, unix}
use task_management_api.Models.{Uuid, TokenRow}
use task_management_api.Services.Database.{Found, found}
use task_management_api.Middleware.Authz.{
  text, number, MapClaims, Parsed, parsed, Jwt, secret, key_func,
}
use task_management_api.Services.Auth.{
  AuthTable, Libraries, success, Claimed, claimed, hour, claims_of, claim_uuid, jti_of, with_user,
  with_jti, refresh_ids, refresh_claims,
}
use task_management_api.Services.Auth.Service.{
  created, recorded, with_refresh, with_access, generate_token, replaced, found_row, with_ids,
  refreshed, refresh_token,
}

-- The claims of a refresh token that was issued and expires in these seconds.
abbrev pub claims_until :
    {F : Type 0} → Libraries F → (user_id jti : Uuid) → (issued expires : ℤ) → MapClaims F
claims_until lib user_id jti issued expires = claims_of (
    (bytes "user_id", text (lib.uuid_string user_id))
    ∷ (bytes "type", text (bytes "refresh"))
    ∷ (bytes "jti", text (lib.uuid_string jti))
    ∷ (bytes "iat", number (lib.of_int64 issued))
    ∷ (bytes "exp", number (lib.of_int64 expires))
    ∷ (bytes "iss", text (bytes "taskify-backend"))
    ∷ (bytes "aud", text (bytes "taskify-users"))
    ∷ [])

-- What is relied on at the time `now`: a UUID is parsed as it was printed; a token that was signed with
-- such claims, whenever they expire, is read with them before the second of the claim `exp`, which a
-- float64 holds exactly; a row that was created is found before it expires.
pub record IssueLaws {F S U : Type 0} (lib : Libraries F) (table : AuthTable S U) (jwt : Jwt F)
    (now : Time) : Type 0 where
  pub uuid_read : (id : Uuid) → lib.uuid_from_string (lib.uuid_string id) ≡ some id
  pub signed_read :
      (key token : Bytes) (user_id jti : Uuid) (issued expires : ℤ)
      → lib.sign key (claims_until lib user_id jti issued expires) ≡ some token
      → expires ≤ℤ pos 9_007_199_254_740_992
      → now <ℤ expires *ℤ pos 1_000_000_000
      → jwt.parse (key_func key) token
        ≡ parsed
            (record { valid = true; claims = some (claims_until lib user_id jti issued expires) })
  pub created_found :
      (db db' : S) (row : TokenRow)
      → table.create_token db row ≡ (db', none)
      → now <ℤ row.expires_at
      → table.find_token db' row.jti row.user_id now ≡ found row

unix-floor : (t : Time) → unix t *ℤ pos 1_000_000_000 ≤ℤ t
unfolding unix ◌*ℤ◌
unix-floor (pos n) = ground arith
unix-floor (negsuc n) = ground arith

module _ {F S U : Type 0} (lib : Libraries F) (table : AuthTable S U) where
  abbrev row_of : Uuid → (jti id : Uuid) → Time → (refresh : Bytes) → TokenRow
  row_of user_id jti id now refresh = record {
    id = id;
    user_id = user_id;
    jti = jti;
    refresh_token = refresh;
    expires_at = now +ℤ hour;
  }

  created-issued :
      (x : S × Option Bytes) (db' : S) (access refresh access' refresh' : Bytes)
      → created x access refresh ≡ (db', success (access', refresh'))
      → (x ≡ (db', none)) × (refresh ≡ refresh')
  unfolding created
  created-issued (db, none) db' access refresh access' refresh' h = (ground arith, ground arith)
  created-issued (db, some e) db' access refresh access' refresh' h = absurd (ground arith)

  claim-issued :
      (claims : MapClaims F) (name missing invalid : Bytes) (id : Uuid)
      → ((id : Uuid) → lib.uuid_from_string (lib.uuid_string id) ≡ some id)
      → claims name ≡ some (text (lib.uuid_string id))
      → claim_uuid lib claims name missing invalid ≡ claimed id
  unfolding claim_uuid
  claim-issued claims name missing invalid id h e = rw (claim_uuid, e, h id) refl

  refresh_ids-issued :
      (user_id jti : Uuid) (now : Time)
      → ((id : Uuid) → lib.uuid_from_string (lib.uuid_string id) ≡ some id)
      → refresh_ids lib
          (record { valid = true; claims = some (refresh_claims lib user_id jti now) })
        ≡ claimed (jti, user_id)
  unfolding refresh_ids refresh_claims jti_of with_jti
  refresh_ids-issued user_id jti now h =
      let claims = refresh_claims lib user_id jti now in
      ap (with_jti lib claims) (
        claim-issued claims (bytes "jti") (bytes "missing jti in token")
          (bytes "invalid jti format") jti h refl)
      ∙ ap (with_user jti) (
          claim-issued claims (bytes "user_id") (bytes "missing user_id in token")
            (bytes "invalid user_id format") user_id h refl)

  -- What a success says of the tokens.
  record Issue (s : Option Bytes) (db db' : S) (user_id jti id : Uuid) (now : Time)
      (refresh : Bytes) : Type 0 where
    signed : lib.sign (secret s) (refresh_claims lib user_id jti now) ≡ some refresh
    stored : table.create_token db (row_of user_id jti id now refresh) ≡ (db', none)

  with_refresh-Issue :
      (s : Option Bytes) (db db' : S) (user_id jti id : Uuid) (now : Time)
      (access access' refresh' : Bytes) (signed : Option Bytes)
      → lib.sign (secret s) (refresh_claims lib user_id jti now) ≡ signed
      → with_refresh lib table db user_id jti (some id) now access signed
        ≡ (db', success (access', refresh'))
      → Issue s db db' user_id jti id now refresh'
  unfolding with_refresh recorded
  with_refresh-Issue s db db' user_id jti id now access access' refresh' none e h =
      absurd (ground arith)
  with_refresh-Issue s db db' user_id jti id now access access' refresh' (some refresh) e h =
      let (made, same) =
        created-issued (table.create_token db (row_of user_id jti id now refresh)) db' access
          refresh access' refresh' h in
      record { signed = e ∙ ap (λ (r : Bytes). some r) same; stored = rw same at made }

  with_access-Issue :
      (s : Option Bytes) (db db' : S) (user_id jti id : Uuid) (now : Time)
      (access' refresh' : Bytes) (signed : Option Bytes)
      → with_access lib table s db user_id (some jti) (some id) now signed
        ≡ (db', success (access', refresh'))
      → Issue s db db' user_id jti id now refresh'
  unfolding with_access
  with_access-Issue s db db' user_id jti id now access' refresh' none h = absurd (ground arith)
  with_access-Issue s db db' user_id jti id now access' refresh' (some access) h =
      with_refresh-Issue s db db' user_id jti id now access access' refresh' _ refl h

module _ {F S U : Type 0} (lib : Libraries F) (table : AuthTable S U) where
  -- The refresh token that `GenerateToken` gives, presented to `RefreshToken` before the second in
  -- which an hour from then ends, passes every check: what comes back is that of new tokens for the
  -- same user and of the deletion of the old record. The second is one that a float64 holds exactly.
  pub refresh_token-generate_token :
      (jwt : Jwt F) (s : Option Bytes) (db db' : S) (user_id jti id : Uuid) (jti' id' : Option Uuid)
      (now now' issued' : Time) (access refresh : Bytes)
      → IssueLaws lib table jwt now'
      → generate_token lib table s db user_id (some jti) (some id) now
        ≡ (db', success (access, refresh))
      → unix (now +ℤ pos 3_600_000_000_000) ≤ℤ pos 9_007_199_254_740_992
      → now' <ℤ unix (now +ℤ pos 3_600_000_000_000) *ℤ pos 1_000_000_000
      → refresh_token (record lib { jwt = jwt }) table s db' refresh jti' id' now' issued'
        ≡ replaced lib table
            (record {
              id = id;
              user_id = user_id;
              jti = jti;
              refresh_token = refresh;
              expires_at = now +ℤ pos 3_600_000_000_000;
            })
            (generate_token (record lib { jwt = jwt }) table s db' user_id jti' id' issued')
  unfolding generate_token refresh_token refreshed with_ids found_row refresh_claims replaced
  refresh_token-generate_token jwt s db db' user_id jti id jti' id' now now' issued' access refresh
        laws h b t =
      let i : Issue lib table s db db' user_id jti id now refresh =
        with_access-Issue lib table s db db' user_id jti id now access refresh _ h in
      let lib' : Libraries F = record lib { jwt = jwt } in
      let row = row_of lib table user_id jti id now refresh in
      let read =
        laws.signed_read (secret s) refresh user_id jti (unix now) (unix (now +ℤ hour)) i.signed b
          t in
      let f = laws.created_found db db' row i.stored (omega (arith, t, unix-floor (now +ℤ hour))) in
      let g = refresh_ids-issued lib' table user_id jti now laws.uuid_read in
      ap (λ (p : Parsed F). refreshed lib' table s db' p jti' id' now' issued') read
      ∙ ap (λ (c : Claimed (Uuid × Uuid)). with_ids lib' table s db' c jti' id' now' issued') g
      ∙ ap (λ (o : Found TokenRow). found_row lib' table s db' o user_id jti' id' issued') f
