-- ===== src/Services/Authorization/RoleTests.antt =====
-- Roles given and taken by authorization.go, on a table that keeps its primary key.
use task_management_api.Shared.{
  ◌≡◌, ◌≢◌, refl, ◌⊎◌, inl, inr, Bool, true, false, Option, none, some, List, [], ◌∷◌, Bytes, bytes,
}
use task_management_api.Shared.Int.{pos}
use task_management_api.Services.Authorization.Roles.{
  UserRole, RoleStatements, assign_role, revoke_role,
}
use task_management_api.Services.Authorization.Revoked.{
  has_row, is_active, first_active, all_deleted_at, RoleLaws, assigns, revokes, run_calls,
  revoke_role-lasts,
}

abbrev Table : Type 0
Table = List UserRole

abbrev create_if : (taken : Bool) → Table → UserRole → Table × Option Bytes
create_if true rows row = (rows, some (bytes "duplicate key"))
create_if false rows row = (row ∷ rows, none)

abbrev table : RoleStatements Table
table = record {
  first_user_role = λ rows u r. first_active u r rows;
  create_user_role = λ rows row. create_if (has_row row.user_id row.role_id rows) rows row;
  delete_user_role = λ rows u r. (all_deleted_at u r (pos 7) rows, none);
}

creates_if :
    (taken : Bool) (rows : Table) (row : UserRole)
    → has_row row.user_id row.role_id rows ≡ taken
    → ((has_row row.user_id row.role_id rows ≡ false) × ((create_if taken rows row).0 ≡ row ∷ rows))
      ⊎ ((e : Bytes) × ((create_if taken rows row).1 ≡ some e)
          × ((create_if taken rows row).0 ≡ rows))
creates_if true rows row h = inr (bytes "duplicate key", refl, refl)
creates_if false rows row h = inl (h, refl)

table-laws : RoleLaws table (λ rows. rows)
table-laws = record {
  finds = λ rows u r. inl refl;
  creates = λ rows row. creates_if (has_row row.user_id row.role_id rows) rows row refl;
  deletes = λ rows u r. inl (pos 7, refl);
}

abbrev given : Table
given = (assign_role table [] 4 2 1 (pos 5)).0

gives_once :
    (is_active 4 2 given ≡ true)
    × ((assign_role table given 4 2 1 (pos 6)).1 ≡ some (bytes "user already has this role"))
unfolding assign_role
gives_once = (refl, refl)

revoke_role-lasts_example :
    (is_active 4 2
        (run_calls table (assigns 4 3 1 (pos 8) ∷ revokes 4 3 ∷ []) (revoke_role table given 4 2).0)
      ≡ false)
    × ((assign_role table
          (run_calls table
            (assigns 4 3 1 (pos 8) ∷ revokes 4 3 ∷ [])
            (revoke_role table given 4 2).0)
          4
          2
          1
          (pos 9)).1
        ≢ none)
unfolding assign_role revoke_role
revoke_role-lasts_example =
    revoke_role-lasts table (λ rows. rows) table-laws 4 2 given
      (assigns 4 3 1 (pos 8) ∷ revokes 4 3 ∷ []) 1 (pos 9) refl refl
