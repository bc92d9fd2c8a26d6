-- ===== src/Services/Auth/Leaves.antt =====
-- What a refresh or a revocation of auth.go leaves in the database where it succeeds.
use task_management_api.Shared.{◌≡◌, refl, ap, Option, none, some, Bytes}
use task_management_api.Shared.Int.{Time}
use task_management_api.Models.{Uuid, TokenRow}
use task_management_api.Services.Database.{Found, found, not_found, broken}
use task_management_api.Middleware.Authz.{
  MapClaims, Token, Parsed, parsed, parse_error, secret, key_func,
}
use task_management_api.Services.Auth.{
  AuthTable, Libraries, Result, success, error, panicked, Claimed, claimed, rejected, jti_of,
  refresh_claims,
}
use task_management_api.Services.Auth.Service.{
  deleted, revoke_jti, with_refresh, with_access, created, recorded, generate_token, replaced,
  found_row, with_ids, refreshed, revoked_parsed, revoke_claims, revoked,
}
use task_management_api.Services.Auth.Ids.{Ids, no_ids, ids, HasJti, refresh_ids-Ids, same_jti}

-- What the database promises of its unique index on `jti`: a token that was found, and that is deleted
-- after another one was created, is not found any more, and neither is a token deleted by its `jti`.
pub record TokenLaws {S U : Type 0} (table : AuthTable S U) : Type 0 where
  pub replaced_gone :
      (db db' db'' : S) (jti user_id : Uuid) (now : Time) (row created : TokenRow)
      → table.find_token db jti user_id now ≡ found row
      → table.create_token db created ≡ (db', none)
      → table.delete_token db' row ≡ (db'', none)
      → (user_id' : Uuid) (now' : Time) → table.find_token db'' jti user_id' now' ≡ not_found
  pub deleted_gone :
      (db db' : S) (jti : Uuid)
      → table.delete_jti db jti ≡ (db', none)
      → (user_id : Uuid) (now : Time) → table.find_token db' jti user_id now ≡ not_found

-- An error, with the database as it was.
abbrev pub IsRefused : {S A : Type 0} → S → S × Result A → Type 0
IsRefused db (db', success a) = ⊥
IsRefused db (db', error e) = db' ≡ db
IsRefused db (db', panicked) = ⊥

module _ {F S U : Type 0} (lib : Libraries F) (table : AuthTable S U) where
  -- The state and result of a step, where it succeeds.
  abbrev pub OnSuccess : {A : Type 0} → (S → Type 0) → S × Result A → Type 0
  OnSuccess P (db, success a) = P db
  OnSuccess P (db, error e) = Unit {0}
  OnSuccess P (db, panicked) = Unit {0}

  on-map :
      {A : Type 0} (P Q : S → Type 0) (f : (db : S) → P db → Q db) (x : S × Result A)
      → OnSuccess P x
      → OnSuccess Q x
  on-map P Q f (db, success a) p = f db p
  on-map P Q f (db, error e) p = tt
  on-map P Q f (db, panicked) p = tt

  abbrev CreatedFrom : S → S → Type 0
  CreatedFrom db db' = (row : TokenRow) × (table.create_token db row ≡ (db', none))

  created-OnSuccess :
      (db : S) (row : TokenRow) (x : S × Option Bytes) (access refresh : Bytes)
      → table.create_token db row ≡ x
      → OnSuccess (CreatedFrom db) (created x access refresh)
  unfolding created
  created-OnSuccess db row (db', none) access refresh e = (row, e)
  created-OnSuccess db row (db', some x) access refresh e = tt

  recorded-OnSuccess :
      (db : S) (user_id jti : Uuid) (id : Option Uuid) (now : Time) (access refresh : Bytes)
      → OnSuccess (CreatedFrom db) (recorded lib table db user_id jti id now access refresh)
  unfolding recorded
  recorded-OnSuccess db user_id jti none now access refresh = tt
  recorded-OnSuccess db user_id jti (some id) now access refresh =
      created-OnSuccess db _ _ access refresh refl

  with_access-OnSuccess :
      (s : Option Bytes) (db : S) (user_id : Uuid) (jti id : Option Uuid) (now : Time)
      (signed : Option Bytes)
      → OnSuccess (CreatedFrom db) (with_access lib table s db user_id jti id now signed)
  unfolding with_access
  with_access-OnSuccess s db user_id jti id now none = tt
  with_access-OnSuccess s db user_id none id now (some access) = tt
  with_access-OnSuccess s db user_id (some jti) id now (some access) =
      by_refresh (lib.sign (secret s) (refresh_claims lib user_id jti now))
    where
      by_refresh :
          (signed : Option Bytes)
          → OnSuccess (CreatedFrom db) (with_refresh lib table db user_id jti id now access signed)
      by_refresh none = tt
      by_refresh (some refresh) = recorded-OnSuccess db user_id jti id now access refresh

  generate-OnSuccess :
      (s : Option Bytes) (db : S) (user_id : Uuid) (jti id : Option Uuid) (now : Time)
      → OnSuccess (CreatedFrom db) (generate_token lib table s db user_id jti id now)
  unfolding generate_token
  generate-OnSuccess s db user_id jti id now = with_access-OnSuccess s db user_id jti id now _

  abbrev pub Gone : Uuid → S → Type 0
  Gone jti db = (user_id : Uuid) (now : Time) → table.find_token db jti user_id now ≡ not_found

  abbrev pub HasGone : Option (MapClaims F) → S → Type 0
  HasGone claims db = (old : Uuid) × HasJti lib claims old × Gone old db

  -- A text whose claims hold a `jti` that is gone.
  abbrev pub IsSpent : Option Bytes → Bytes → S → Type 0
  IsSpent s token db =
      (t : Token F) × (jti : Uuid) × (lib.jwt.parse (key_func (secret s)) token ≡ parsed t)
      × HasJti lib t.claims jti
      × Gone jti db

  module _ (laws : TokenLaws table) where
    deleted-OnSuccess :
        (P : S → Type 0) (x : S × Option Bytes) (access refresh : Bytes)
        → (x.1 ≡ none → P x.0)
        → OnSuccess P (deleted x access refresh)
    unfolding deleted
    deleted-OnSuccess P (db, none) access refresh f = f refl
    deleted-OnSuccess P (db, some e) access refresh f = tt

    replaced-OnSuccess :
        (db : S) (old user_id : Uuid) (now : Time) (row : TokenRow) (x : S × Result (Bytes × Bytes))
        → table.find_token db old user_id now ≡ found row
        → OnSuccess (CreatedFrom db) x
        → OnSuccess (Gone old) (replaced lib table row x)
    unfolding replaced
    replaced-OnSuccess db old user_id now row (db', error e) h c = tt
    replaced-OnSuccess db old user_id now row (db', panicked) h c = tt
    replaced-OnSuccess db old user_id now row (db', success (access, refresh)) h c =
        deleted-OnSuccess (Gone old) (table.delete_token db' row) access refresh (λ e.
          laws.replaced_gone db db' _ old user_id now row c.0 h c.1
            (ap (λ (o : Option Bytes). ((table.delete_token db' row).0, o)) e))

    found_row-OnSuccess :
        (s : Option Bytes) (db : S) (old user_id : Uuid) (jti id : Option Uuid) (now issued : Time)
        (r : Found TokenRow)
        → table.find_token db old user_id now ≡ r
        → OnSuccess (Gone old) (found_row lib table s db r user_id jti id issued)
    unfolding found_row
    found_row-OnSuccess s db old user_id jti id now issued (found row) h =
        replaced-OnSuccess db old user_id now row _ h
          (generate-OnSuccess s db user_id jti id issued)
    found_row-OnSuccess s db old user_id jti id now issued not_found h = tt
    found_row-OnSuccess s db old user_id jti id now issued (broken e) h = tt

    with_ids-OnSuccess :
        (s : Option Bytes) (db : S) (claims : Option (MapClaims F)) (r : Claimed (Uuid × Uuid))
        (jti id : Option Uuid) (now issued : Time)
        → Ids lib claims r
        → OnSuccess (HasGone claims) (with_ids lib table s db r jti id now issued)
    unfolding with_ids
    with_ids-OnSuccess s db claims r jti id now issued (no_ids e) = tt
    with_ids-OnSuccess s db claims r jti id now issued (ids old user_id h) =
        on-map (Gone old) (HasGone claims) (λ db' g. (old, h, g)) _
          (found_row-OnSuccess s db old user_id jti id now issued _ refl)

    pub refresh-OnSuccess :
        (s : Option Bytes) (db : S) (token : Bytes) (jti id : Option Uuid) (now issued : Time)
        (r : Parsed F)
        → lib.jwt.parse (key_func (secret s)) token ≡ r
        → OnSuccess (IsSpent s token) (refreshed lib table s db r jti id now issued)
    unfolding refreshed
    refresh-OnSuccess s db token jti id now issued parse_error h = tt
    refresh-OnSuccess s db token jti id now issued (parsed t) h =
        on-map (HasGone t.claims) (IsSpent s token) (λ db' g. (t, g.0, h, g.1, g.2)) _
          (with_ids-OnSuccess s db t.claims _ jti id now issued (refresh_ids-Ids lib t))

    revoked-OnSuccess :
        (db : S) (claims : Option (MapClaims F)) (c : MapClaims F) (jti : Uuid)
        (x : S × Option Bytes)
        → claims ≡ some c
        → jti_of lib c ≡ claimed jti
        → table.delete_jti db jti ≡ x
        → OnSuccess (HasGone claims) (revoked x)
    unfolding revoked
    revoked-OnSuccess db claims c jti (db', none) e f g =
        (jti, (c, e, f), laws.deleted_gone db db' jti g)
    revoked-OnSuccess db claims c jti (db', some x) e f g = tt

    revoke_jti-OnSuccess :
        (db : S) (c : MapClaims F) (r : Claimed Uuid)
        → jti_of lib c ≡ r
        → OnSuccess (HasGone (some c)) (revoke_jti lib table db r)
    unfolding revoke_jti
    revoke_jti-OnSuccess db c (rejected e) h = tt
    revoke_jti-OnSuccess db c (claimed jti) h =
        revoked-OnSuccess db (some c) c jti (table.delete_jti db jti) refl h refl

    revoke_claims-OnSuccess :
        (db : S) (claims : Option (MapClaims F))
        → OnSuccess (HasGone claims) (revoke_claims lib table db claims)
    unfolding revoke_claims
    revoke_claims-OnSuccess db none = tt
    revoke_claims-OnSuccess db (some c) = revoke_jti-OnSuccess db c (jti_of lib c) refl

    pub revoke-OnSuccess :
        (s : Option Bytes) (db : S) (token : Bytes) (r : Parsed F)
        → lib.jwt.parse (key_func (secret s)) token ≡ r
        → OnSuccess (IsSpent s token) (revoked_parsed lib table db r)
    unfolding revoked_parsed
    revoke-OnSuccess s db token parse_error h = tt
    revoke-OnSuccess s db token (parsed t) h =
        on-map (HasGone t.claims) (IsSpent s token) (λ db' g. (t, g.0, h, g.1, g.2)) _
          (revoke_claims-OnSuccess db t.claims)

    pub with_ids-IsRefused :
        (s : Option Bytes) (db : S) (claims : Option (MapClaims F)) (r : Claimed (Uuid × Uuid))
        (jti id : Option Uuid) (now issued : Time)
        → Ids lib claims r
        → HasGone claims db
        → IsRefused db (with_ids lib table s db r jti id now issued)
    unfolding with_ids found_row
    with_ids-IsRefused s db claims r jti id now issued (no_ids e) g = refl
    with_ids-IsRefused s db claims r jti id now issued (ids old user_id h) (j, k, g) =
        let gone : table.find_token db old user_id now ≡ not_found =
          rw (same_jti lib claims old j h k) (g user_id now) in
        rw gone refl
