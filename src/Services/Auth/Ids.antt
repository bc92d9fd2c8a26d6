-- ===== src/Services/Auth/Ids.antt =====
-- The identifiers that auth.go reads in the claims of a refresh token.
use task_management_api.Shared.{
  Bool, true, false, Bool-cases, ◌≡◌, refl, inl, inr, Option, none, some, Bytes, bytes, bytes_eq,
}
use task_management_api.Models.{Uuid}
use task_management_api.Middleware.Authz.{MapClaims, Token, as_text}
use task_management_api.Services.Auth.{
  Libraries, Claimed, claimed, rejected, refresh_ids, with_user, with_jti, typed_ids, claims_ids,
  jti_of,
}

module _ {F : Type 0} (lib : Libraries F) where
  abbrev pub HasJti : Option (MapClaims F) → Uuid → Type 0
  HasJti claims jti = (c : MapClaims F) × (claims ≡ some c) × (jti_of lib c ≡ claimed jti)

  -- What `refresh_ids` comes to.
  pub data Ids (claims : Option (MapClaims F)) : Claimed (Uuid × Uuid) → Type 0 where
    no_ids : (e : Bytes) → Ids claims (rejected e)
    ids : (jti user_id : Uuid) → HasJti claims jti → Ids claims (claimed (jti, user_id))

  with_user-Ids :
      (claims : MapClaims F) (jti : Uuid) (r : Claimed Uuid)
      → jti_of lib claims ≡ claimed jti
      → Ids (some claims) (with_user jti r)
  unfolding with_user
  with_user-Ids claims jti (claimed u) h = ids jti u (claims, refl, h)
  with_user-Ids claims jti (rejected e) h = no_ids e

  with_jti-Ids :
      (claims : MapClaims F) (r : Claimed Uuid)
      → jti_of lib claims ≡ r
      → Ids (some claims) (with_jti lib claims r)
  unfolding with_jti
  with_jti-Ids claims (rejected e) h = no_ids e
  with_jti-Ids claims (claimed jti) h = with_user-Ids claims jti _ h

  typed_ids-Ids :
      (claims : MapClaims F) (t : Option Bytes) → Ids (some claims) (typed_ids lib claims t)
  unfolding typed_ids
  typed_ids-Ids claims none = no_ids _
  typed_ids-Ids claims (some t) = elim (Bool-cases (bytes_eq t (bytes "refresh"))) [
    | inl e ↦ rw e (with_jti-Ids claims (jti_of lib claims) refl)
    | inr e ↦ rw e (no_ids _)
  ]

  claims_ids-Ids :
      (valid : Bool) (claims : Option (MapClaims F)) → Ids claims (claims_ids lib valid claims)
  unfolding claims_ids
  claims_ids-Ids valid none = no_ids _
  claims_ids-Ids true (some claims) = typed_ids-Ids claims (as_text (claims (bytes "type")))
  claims_ids-Ids false (some claims) = no_ids _

  pub refresh_ids-Ids : (t : Token F) → Ids t.claims (refresh_ids lib t)
  unfolding refresh_ids
  refresh_ids-Ids t = claims_ids-Ids t.valid t.claims

  pub same_jti :
      (claims : Option (MapClaims F)) (j k : Uuid) → HasJti claims j → HasJti claims k → j ≡ k
  same_jti claims j k (c, e, f) (d, g, h) = cc (e, f, g, h)
