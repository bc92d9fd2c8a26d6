-- ===== src/Services/Users.antt =====
-- backend/internal/services/users.go, over the statements that it makes of the database, which are
-- parameters. `U` is a row of users, `X` the updates.
mod Tests
use task_management_api.Shared.{
  ℕ, ◌≡◌, ◌≢◌, ◌↔◌, refl, ◌==◌, ==_iff, Option, none, some, List, [], Bytes, bytes, if◌then◌else◌,
  arith,
}
use task_management_api.Models.{Uuid}

-- An error of GORM: `ErrRecordNotFound` or another one.
pub data DbError : Type 0 where
  record_not_found : DbError
  db_error : Bytes → DbError

-- A statement that writes comes back with `RowsAffected` and `Error`; `find_user` has no row for an
-- unknown user, and then the zero user.
pub record UserTable (S U X : Type 0) : Type 0 where
  pub raw : S → Bytes → List U × Option DbError
  pub find_user : S → Uuid → U × Option DbError
  pub find : S → List U × Option DbError
  pub delete : S → Uuid → S × ℕ × Option DbError
  pub updates : S → Uuid → X → S × ℕ × Option DbError
  pub zero_user : U

module _ {S U X : Type 0} (table : UserTable S U X) where
  unfoldable pub get_user_profile_malicious : S → Bytes → List U × Option DbError
  get_user_profile_malicious db user_id =
      let (users, err) = table.raw db user_id in
      elim err [ some e ↦ ([], some e) | none ↦ (users, none) ]

  unfoldable pub get_user_profile : S → Uuid → U × Option DbError
  get_user_profile db user_id =
      let (user, err) = table.find_user db user_id in
      elim err [ some e ↦ (table.zero_user, some e) | none ↦ (user, none) ]

  -- A nil slice is the empty list.
  unfoldable pub get_users : S → List U × Option DbError
  get_users db =
      let (users, err) = table.find db in elim err [ some e ↦ ([], some e) | none ↦ (users, none) ]

  unfoldable pub delete_user : S → Uuid → S × Option DbError
  delete_user db user_id =
      let (db', rows, err) = table.delete db user_id in
      (db', if rows == 0 then some record_not_found else err)

  unfoldable pub update_user : S → Uuid → X → S × Option DbError
  update_user db user_id updates =
      let (db', rows, err) = table.updates db user_id updates in
      (db', if rows == 0 then some record_not_found else err)

  -- `DeleteUser` and `UpdateUser` succeed exactly if the statement changed a row without an error.
  pub write_user_outcome :
      (db : S) (user_id : Uuid) (updates : X)
      → (((delete_user db user_id).1 ≡ none)
          ↔ (((table.delete db user_id).1 ≢ 0) × ((table.delete db user_id).2 ≡ none)))
        × (((update_user db user_id updates).1 ≡ none) ↔ (
            ((table.updates db user_id updates).1 ≢ 0)
            × ((table.updates db user_id updates).2 ≡ none)))
  unfolding delete_user update_user
  write_user_outcome db user_id updates = (
    ground (arith, ==_iff ((table.delete db user_id).1) 0),
    ground (arith, ==_iff ((table.updates db user_id updates).1) 0),
  )
