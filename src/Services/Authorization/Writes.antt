-- ===== src/Services/Authorization/Writes.antt =====
-- The other writes of backend/internal/services/authorization.go: attributes, roles, permissions and the
-- audit log. A new UUID and the readings of the clock are arguments, and a context is what
-- `json.Marshal` makes of it.
use task_management_api.Shared.{Option, none, some, [], ◌++◌, Bytes, bytes}
use task_management_api.Shared.Int.{Time}
use task_management_api.Models.{Uuid, UserAttribute}
use task_management_api.Services.Database.{Answer, answer, failure}
use task_management_api.Services.Authorization.{AuthorizationDecision}

pub record ResourceAttribute : Type 0 where
  pub id : Uuid
  pub resource_type : Bytes
  pub resource_id : Uuid
  pub name : Bytes
  pub value : Bytes
  pub data_type : Bytes
  pub source : Bytes
  pub created_at : Time
  pub updated_at : Time

pub record Role : Type 0 where
  pub id : Uuid
  pub name : Bytes
  pub description : Bytes

pub record Permission : Type 0 where
  pub id : Uuid
  pub name : Bytes
  pub resource : Bytes
  pub action : Bytes
  pub description : Bytes
  pub created_at : Time
  pub updated_at : Time

pub record RolePermission : Type 0 where
  pub role_id : Uuid
  pub permission_id : Uuid
  pub assigned_by : Option Uuid
  pub assigned_at : Option Time
  pub created_at : Time
  pub updated_at : Time

-- `resource_id` is `none` for the nil UUID.
pub record AuditLog : Type 0 where
  pub id : Uuid
  pub user_id : Uuid
  pub action : Bytes
  pub resource : Bytes
  pub resource_id : Option Uuid
  pub decision : Bytes
  pub reason : Bytes
  pub ip_address : Bytes
  pub user_agent : Bytes
  pub context : Bytes
  pub timestamp : Time

-- `Save` and `Create` with their `Error`; `Create` of a role or a permission fills in what the database
-- sets.
pub record Writes (DB : Type 0) : Type 0 where
  pub save_user_attribute : DB → UserAttribute → DB × Option Bytes
  pub save_resource_attribute : DB → ResourceAttribute → DB × Option Bytes
  pub create_role : DB → Role → DB × Role × Option Bytes
  pub create_permission : DB → Permission → DB × Permission × Option Bytes
  pub create_role_permission : DB → RolePermission → DB × Option Bytes
  pub create_audit_log : DB → AuditLog → DB × Option Bytes

unfoldable pub context_json : Option (Answer Bytes) → Bytes
context_json none = []
context_json (some (answer json)) = json
context_json (some (failure e)) = []

unfoldable pub audit_log_of : (id : Uuid) → AuthorizationDecision → AuditLog
unfolding context_json
audit_log_of id decision = record {
  id = id;
  user_id = decision.user_id;
  action = decision.action ++ (bytes "_" ++ decision.resource);
  resource = decision.resource;
  resource_id = decision.resource_id;
  decision = decision.decision;
  reason = decision.reason;
  ip_address = decision.ip_address;
  user_agent = decision.user_agent;
  context = context_json decision.context;
  timestamp = decision.timestamp;
}

module _ {DB : Type 0} (q : Writes DB) where
  unfoldable pub set_user_attribute :
      DB
      → (id user_id : Uuid) → (key value data_type : Bytes) → (created updated : Time)
      → DB × Option Bytes
  set_user_attribute db id user_id key value data_type created updated =
      q.save_user_attribute db (record {
        id = id;
        user_id = user_id;
        name = key;
        value = value;
        data_type = data_type;
        source = bytes "manual";
        expires_at = none;
        created_at = created;
        updated_at = updated;
        deleted_at = none;
      })

  unfoldable pub set_resource_attribute :
      DB
      → (id : Uuid) → (resource_type : Bytes) → (resource_id : Uuid) → (key value data_type : Bytes)
      → (created updated : Time) → DB × Option Bytes
  set_resource_attribute db id resource_type resource_id key value data_type created updated =
      q.save_resource_attribute db (record {
        id = id;
        resource_type = resource_type;
        resource_id = resource_id;
        name = key;
        value = value;
        data_type = data_type;
        source = bytes "manual";
        created_at = created;
        updated_at = updated;
      })

  unfoldable pub create_role :
      DB → (id : Uuid) → (name description : Bytes) → DB × Role × Option Bytes
  create_role db id name description =
      q.create_role db (record { id = id; name = name; description = description })

  unfoldable pub create_permission :
      DB
      → (id : Uuid) → (resource action description : Bytes) → (created updated : Time)
      → DB × Permission × Option Bytes
  create_permission db id resource action description created updated =
      q.create_permission db (record {
        id = id;
        name = resource ++ (bytes ":" ++ action);
        resource = resource;
        action = action;
        description = description;
        created_at = created;
        updated_at = updated;
      })

  unfoldable pub grant_permission_to_role :
      DB → (role_id permission_id granted_by : Uuid) → (now : Time) → DB × Option Bytes
  grant_permission_to_role db role_id permission_id granted_by now =
      q.create_role_permission db (record {
        role_id = role_id;
        permission_id = permission_id;
        assigned_by = some granted_by;
        assigned_at = some now;
        created_at = now;
        updated_at = now;
      })

  unfoldable pub log_authorization_decision :
      DB → (id : Uuid) → AuthorizationDecision → DB × Option Bytes
  unfolding audit_log_of
  log_authorization_decision db id decision = q.create_audit_log db (audit_log_of id decision)
