-- ===== src/Services/Auth/Spent.antt =====
-- Refresh tokens of auth.go that were used or revoked.
use task_management_api.Shared.{Bool, ◌≡◌, refl, sym, ◌∙◌, subst, ◌⊎◌, inl, inr, Option, Bytes}
use task_management_api.Shared.Int.{ℤ, Time}
use task_management_api.Models.{Uuid}
use task_management_api.Middleware.Authz.{
  MapClaims, Token, Parsed, parsed, parse_error, Jwt, secret, key_func,
}
use task_management_api.Services.Auth.{AuthTable, Libraries, success, claim_uuid, jti_of}
use task_management_api.Services.Auth.Service.{refresh_token, refreshed, revoke_token}
use task_management_api.Services.Auth.Ids.{HasJti, refresh_ids-Ids}
use task_management_api.Services.Auth.Leaves.{
  TokenLaws, IsRefused, IsSpent, HasGone, Gone, OnSuccess, refresh-OnSuccess, revoke-OnSuccess,
  with_ids-IsRefused,
}

-- The two libraries read the same claims, if both accept the text.
abbrev pub SameClaims : {F : Type 0} → Jwt F → Jwt F → Type 0
SameClaims {F} jwt jwt' =
    (key : Bool → Option Bytes) (s : Bytes) (t t' : Token F)
    → jwt.parse key s ≡ parsed t
    → jwt'.parse key s ≡ parsed t'
    → t.claims ≡ t'.claims

module _ {F S U : Type 0} (lib : Libraries F) (table : AuthTable S U) where
  -- The library at another time.
  abbrev later : Jwt F → Libraries F
  later jwt = record lib { jwt = jwt }

  later-HasGone :
      (jwt : Jwt F) (claims claims' : Option (MapClaims F)) (db : S)
      → claims ≡ claims'
      → HasGone lib table claims db
      → (jti : Uuid) × HasJti (later jwt) claims' jti × Gone lib table jti db
  unfolding jti_of claim_uuid
  later-HasGone jwt claims claims' db e (jti, (c, f, g), h) = (jti, (c, sym e ∙ f, g), h)

  refreshed-IsRefused :
      (laws : TokenLaws table) (jwt : Jwt F) (s : Option Bytes) (db : S) (token : Bytes)
      (jti id : Option Uuid) (now issued : Time) (r : Parsed F)
      → SameClaims lib.jwt jwt
      → IsSpent lib table s token db
      → jwt.parse (key_func (secret s)) token ≡ r
      → IsRefused db (refreshed (later jwt) table s db r jti id now issued)
  unfolding refreshed
  refreshed-IsRefused laws jwt s db token jti id now issued parse_error same (t, j, p, h, g) e =
      refl
  refreshed-IsRefused laws jwt s db token jti id now issued (parsed t') same (t, j, p, h, g) e =
      with_ids-IsRefused (later jwt) table laws s db t'.claims _ jti id now issued
        (refresh_ids-Ids (later jwt) t')
        (later-HasGone jwt t.claims t'.claims db (same _ token t t' p e) (j, h, g))

  -- Once `RefreshToken` has given new tokens for a refresh token, or `RevokeToken` has revoked it, the
  -- same text is refused with an error and the database stays as it is, whatever the clock and the
  -- generator of UUIDs say then, and also where `jwt.Parse` has come to refuse it.
  pub refresh_token-once :
      (laws : TokenLaws table) (jwt : Jwt F) (s : Option Bytes) (db db' : S) (token : Bytes)
      (jti id jti' id' : Option Uuid) (now issued now' issued' : Time)
      → SameClaims lib.jwt jwt
      → (((tokens : Bytes × Bytes × ℤ) × (refresh_token lib table s db token jti id now issued
              ≡ (db', success tokens)))
          ⊎ (revoke_token lib table s db token ≡ (db', success tt)))
      → IsRefused db' (refresh_token (later jwt) table s db' token jti' id' now' issued')
  unfolding refresh_token revoke_token
  refresh_token-once laws jwt s db db' token jti id jti' id' now issued now' issued' same h =
      refreshed-IsRefused laws jwt s db' token jti' id' now' issued' _ same (spent h) refl
    where
      spent :
          ((tokens : Bytes × Bytes × ℤ) × (refresh_token lib table s db token jti id now issued
                ≡ (db', success tokens)))
            ⊎ (revoke_token lib table s db token ≡ (db', success tt))
          → IsSpent lib table s token db'
      spent (inl (tokens, e)) =
          subst (OnSuccess lib table (IsSpent lib table s token)) e
            (refresh-OnSuccess lib table laws s db token jti id now issued _ refl)
      spent (inr e) =
          subst (OnSuccess lib table (IsSpent lib table s token)) e
            (revoke-OnSuccess lib table laws s db token _ refl)
