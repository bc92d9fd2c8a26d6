-- ===== src/Services/Auth/Tests.antt =====
-- Refresh tokens of auth.go on a database with one table and libraries that keep what they sign.
use task_management_api.Shared.{
  ℕ, true, ◌≡◌, refl, sym, ap, ap₂, subst, ◌∙◌, inl, ◌&&◌, ◌==◌, Option, none, some, [], ◌∷◌, Bytes,
  bytes, bytes_eq, if◌then◌else◌, arith,
}
use task_management_api.Shared.Int.{ℤ, pos, negsuc, Time, ltb_ℤ, ◌<ℤ◌, ◌+ℤ◌, ◌*ℤ◌}
use task_management_api.Models.{Uuid, TokenRow}
use task_management_api.Services.Database.{answer, Found, found, not_found}
use task_management_api.Middleware.Authz.{
  text, number, MapClaims, Parsed, parsed, parse_error, Jwt, as_text, as_number,
}
use task_management_api.Services.Auth.{AuthTable, Libraries, Result, error, claims_of}
use task_management_api.Services.Auth.Service.{generate_token, replaced, refresh_token}
use task_management_api.Services.Auth.Leaves.{TokenLaws, IsRefused}
use task_management_api.Services.Auth.Spent.{SameClaims, refresh_token-once}
use task_management_api.Services.Auth.Issued.{IssueLaws, claims_until, refresh_token-generate_token}

-- The tokens by their `jti`.
abbrev Table : Type 0
Table = Uuid → Option TokenRow

abbrev put : Table → Uuid → Option TokenRow → Table
put db jti row j = if j == jti then row else db j

abbrev matching : Uuid → Uuid → Time → Option TokenRow → Found TokenRow
matching jti user_id now none = not_found
matching jti user_id now (some row) =
    if (row.jti == jti) && ((row.user_id == user_id) && ltb_ℤ now row.expires_at)
    then found row
    else not_found

abbrev table : AuthTable Table Bytes
table = record {
  find_user = λ db email. if bytes_eq email (bytes "a@b.c") then found email else not_found;
  password = λ user. user;
  role_name = λ db user. answer (bytes "admin");
  permissions = λ db user. answer [];
  find_token = λ db jti user_id now. matching jti user_id now (db jti);
  create_token = λ db row. (put db row.jti (some row), none);
  delete_token = λ db row. (put db row.jti none, none);
  delete_jti = λ db jti. (put db jti none, none);
}

abbrev no_token : Table
no_token jti = none

-- An integer in two bytes of any size.
abbrev sign_of : ℤ → ℕ
sign_of (pos n) = 0
sign_of (negsuc n) = 1

abbrev size_of : ℤ → ℕ
size_of (pos n) = n
size_of (negsuc n) = n

abbrev integer : (sign size : ℕ) → ℤ
integer sign size = if sign == 0 then pos size else negsuc size

integer-sign_of : (z : ℤ) → integer (sign_of z) (size_of z) ≡ z
integer-sign_of (pos n) = refl
integer-sign_of (negsuc n) = refl

abbrev read_claims : (user_id jti : Bytes) → (issued expires : ℤ) → MapClaims ℤ
read_claims user_id jti issued expires = claims_of (
    (bytes "user_id", text user_id)
    ∷ (bytes "type", text (bytes "refresh"))
    ∷ (bytes "jti", text jti)
    ∷ (bytes "iat", number issued)
    ∷ (bytes "exp", number expires)
    ∷ (bytes "iss", text (bytes "taskify-backend"))
    ∷ (bytes "aud", text (bytes "taskify-users"))
    ∷ [])

abbrev unexpired : Time → (user_id jti : Bytes) → (issued expires : ℤ) → Parsed ℤ
unexpired now user_id jti issued expires =
    if ltb_ℤ now (expires *ℤ pos 1_000_000_000)
    then parsed (record { valid = true; claims = some (read_claims user_id jti issued expires) })
    else parse_error

-- A token is its user, its `jti`, and the seconds in which it was issued and expires; one that has
-- expired is not read.
abbrev read : Time → Bytes → Parsed ℤ
read now (u ∷ j ∷ i ∷ i' ∷ e ∷ e' ∷ []) =
    unexpired now (u ∷ []) (j ∷ []) (integer i i') (integer e e')
read now token = parse_error

abbrev jwt_at : Time → Jwt ℤ
jwt_at now = record { parse = λ key token. read now token; to_int64 = λ f. f }

abbrev jwt : Jwt ℤ
jwt = jwt_at (pos 3_599_000_000_000)

abbrev first_byte : Option Bytes → ℕ
first_byte none = 0
first_byte (some []) = 0
first_byte (some (b ∷ bs)) = b

abbrev number_or_zero : Option ℤ → ℤ
number_or_zero none = pos 0
number_or_zero (some z) = z

abbrev seconds : MapClaims ℤ → Bytes → ℤ
seconds claims name = number_or_zero (as_number (claims name))

abbrev lib : Libraries ℤ
lib = record {
  jwt = jwt;
  sign = λ key claims. some (
      first_byte (as_text (claims (bytes "user_id")))
      ∷ first_byte (as_text (claims (bytes "jti")))
      ∷ sign_of (seconds claims (bytes "iat"))
      ∷ size_of (seconds claims (bytes "iat"))
      ∷ sign_of (seconds claims (bytes "exp"))
      ∷ size_of (seconds claims (bytes "exp"))
      ∷ []);
  of_int64 = λ n. n;
  uuid_string = λ id. id ∷ [];
  uuid_from_string = λ s. if bytes_eq s [] then none else some (first_byte (some s));
  compare_hash = λ hashed plain. if bytes_eq hashed plain then none else some (bytes "mismatch");
}

matching-put :
    (db : Table) (row : TokenRow) (now : Time)
    → now <ℤ row.expires_at
    → matching row.jti row.user_id now (put db row.jti (some row) row.jti) ≡ found row
matching-put db row now h = ground arith

matching-gone :
    (db : Table) (key jti user_id : Uuid) (now : Time)
    → key ≡ jti
    → matching jti user_id now (put db key none jti) ≡ not_found
matching-gone db key jti user_id now e = ground arith

matching-jti :
    (jti user_id : Uuid) (now : Time) (o : Option TokenRow) (row : TokenRow)
    → matching jti user_id now o ≡ found row
    → row.jti ≡ jti
matching-jti jti user_id now none row h = absurd (ground arith)
matching-jti jti user_id now (some r) row h = ground arith

some_injective : (a b : Bytes) → some a ≡ some b → a ≡ b
some_injective a b h = ground arith

unexpired-early :
    (now : Time) (user_id jti : Bytes) (issued expires : ℤ)
    → now <ℤ expires *ℤ pos 1_000_000_000
    → unexpired now user_id jti issued expires
      ≡ parsed (record { valid = true; claims = some (read_claims user_id jti issued expires) })
unexpired-early now user_id jti issued expires h = ground arith

issue-laws : (now : Time) → IssueLaws lib table (jwt_at now) now
unfolding bytes_eq claims_of
issue-laws now = record {
  uuid_read = λ id. refl;
  signed_read = λ key token user_id jti issued expires h b t.
      subst
        (λ (x : Bytes).
          read now x
          ≡ parsed (record {
            valid = true;
            claims = some (claims_until lib user_id jti issued expires);
          }))
        (some_injective _ token h)
        (ap₂ (unexpired now (user_id ∷ []) (jti ∷ [])) (integer-sign_of issued)
            (integer-sign_of expires)
          ∙ unexpired-early now (user_id ∷ []) (jti ∷ []) issued expires t);
  created_found = λ db db' row h t.
      subst (λ (d : Table). matching row.jti row.user_id now (d row.jti) ≡ found row)
        (ap (λ x. x.0) h) (matching-put db row now t);
}

token-laws : TokenLaws table
token-laws = record {
  replaced_gone = λ db db' db'' jti user_id now row made h c d user_id' now'.
      subst (λ (t : Table). matching jti user_id' now' (t jti) ≡ not_found) (ap (λ x. x.0) d)
        (matching-gone db' row.jti jti user_id' now' (matching-jti jti user_id now (db jti) row h));
  deleted_gone = λ db db' jti h user_id now.
      subst (λ (t : Table). matching jti user_id now (t jti) ≡ not_found) (ap (λ x. x.0) h)
        (matching-gone db jti jti user_id now refl);
}

abbrev claims_read : Parsed ℤ → Option (MapClaims ℤ)
claims_read parse_error = none
claims_read (parsed t) = t.claims

same-claims : SameClaims jwt jwt
same-claims key s t t' h k = sym (ap claims_read h) ∙ ap claims_read k

abbrev issued : Table × Result (Bytes × Bytes)
issued = generate_token lib table (some (bytes "key")) no_token 7 (some 8) (some 9) (pos 0)

abbrev fresh : Bytes
fresh = 7 ∷ 8 ∷ 0 ∷ 0 ∷ 0 ∷ 3600 ∷ []

-- A refresh token that is used twice, an hour less a second after it was issued.
abbrev twice : Table → Table × Result (Bytes × Bytes × ℤ)
twice db =
    refresh_token lib table (some (bytes "key")) db fresh (some 10) (some 11)
      (pos 3_599_000_000_000) (pos 3_599_000_000_000)

refused_twice :
    (twice ((twice (issued.0)).0)).1 ≡ error (bytes "refresh token not found or expired")
unfolding refresh_token ◌*ℤ◌
refused_twice = refl

refresh_token-once_example : IsRefused ((twice (issued.0)).0) (
    refresh_token lib table
      (some (bytes "key"))
      ((twice (issued.0)).0)
      fresh
      (some 12)
      (some 13)
      (pos 3_599_000_000_001)
      (pos 3_599_000_000_002))
unfolding refresh_token ◌*ℤ◌
refresh_token-once_example =
    refresh_token-once lib table token-laws jwt (some (bytes "key")) (issued.0)
      ((twice (issued.0)).0) fresh (some 10) (some 11) (some 12) (some 13) (pos 3_599_000_000_000)
      (pos 3_599_000_000_000) (pos 3_599_000_000_001) (pos 3_599_000_000_002) same-claims
      (inl (_, refl))

refresh_token-generate_token_example :
    twice (issued.0)
    ≡ replaced lib table
        (record {
          id = 9;
          user_id = 7;
          jti = 8;
          refresh_token = fresh;
          expires_at = pos 0 +ℤ pos 3_600_000_000_000;
        })
        (generate_token lib table
          (some (bytes "key"))
          (issued.0)
          7
          (some 10)
          (some 11)
          (pos 3_599_000_000_000))
unfolding generate_token ◌*ℤ◌
refresh_token-generate_token_example =
    refresh_token-generate_token lib table jwt (some (bytes "key")) no_token (issued.0) 7 8 9
      (some 10) (some 11) (pos 0) (pos 3_599_000_000_000) (pos 3_599_000_000_000)
      (7 ∷ 0 ∷ 0 ∷ 0 ∷ 0 ∷ 3600 ∷ []) fresh (issue-laws (pos 3_599_000_000_000)) refl (omega arith)
      (omega arith)
