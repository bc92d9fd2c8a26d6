-- ===== src/Services/Authorization/Roles.antt =====
-- `AssignRole` and `RevokeRole` of backend/internal/services/authorization.go, over the statements that
-- they make of the database, which are parameters. `DB` is the database.
use task_management_api.Shared.{Option, none, some, Bytes, bytes}
use task_management_api.Shared.Int.{Time}
use task_management_api.Models.{Uuid}
use task_management_api.Services.Database.{Found, found, not_found, broken}

-- `deleted_at` is `none` where GORM's is not valid.
pub record UserRole : Type 0 where
  pub user_id : Uuid
  pub role_id : Uuid
  pub assigned_by : Option Uuid
  pub assigned_at : Option Time
  pub expires_at : Option Time
  pub created_at : Time
  pub updated_at : Time
  pub deleted_at : Option Time

-- `Error` of a statement that writes.
pub record RoleStatements (DB : Type 0) : Type 0 where
  pub first_user_role : DB → (user_id role_id : Uuid) → Found UserRole
  pub create_user_role : DB → UserRole → DB × Option Bytes
  pub delete_user_role : DB → (user_id role_id : Uuid) → DB × Option Bytes

unfoldable pub new_user_role : (user_id role_id assigned_by : Uuid) → (now : Time) → UserRole
new_user_role user_id role_id assigned_by now = record {
  user_id = user_id;
  role_id = role_id;
  assigned_by = some assigned_by;
  assigned_at = some now;
  expires_at = none;
  created_at = now;
  updated_at = now;
  deleted_at = none;
}

module _ {DB : Type 0} (q : RoleStatements DB) where
  unfoldable pub assign_found : DB → UserRole → Found UserRole → DB × Option Bytes
  assign_found db user_role (found existing) = (db, some (bytes "user already has this role"))
  assign_found db user_role not_found = q.create_user_role db user_role
  assign_found db user_role (broken e) = (db, some e)

  unfoldable pub assign_role :
      DB → (user_id role_id assigned_by : Uuid) → (now : Time) → DB × Option Bytes
  unfolding new_user_role assign_found
  assign_role db user_id role_id assigned_by now =
      assign_found db (new_user_role user_id role_id assigned_by now)
        (q.first_user_role db user_id role_id)

  unfoldable pub revoke_role : DB → (user_id role_id : Uuid) → DB × Option Bytes
  revoke_role db user_id role_id = q.delete_user_role db user_id role_id
